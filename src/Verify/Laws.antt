-- ===== src/Verify/Laws.antt =====
-- verify.go `VerifyWithOpts`: which messages it accepts.
use pkcs.Base.{
  ℕ, ◌≤◌, ◌≡◌, ◌≢◌, refl, sym, ap, ◌∙◌, Bool, true, false, not, ◌==◌, ==→eq, if◌then◌else◌, Option,
  none, some, List, length, Bytes, ok, fail_if, arith, Bool-cases, inl, inr,
}
use pkcs.Base.{>>=-eq-ok, ok_injective, fail_if-eq-ok, with_error, with_error-eq-ok}
use pkcs.Subtle.{bit, bytes_equal, bytes_equal→eq, bytes_equal_refl, constant_time_compare}
use pkcs.Algorithms.Oids
use pkcs.Algorithms.Keys.{Hash, SignatureAlgorithm}
use pkcs.Algorithms.Choose.{AlgorithmError, get_hash_for_oid}
use pkcs.Algorithms.Accept.{Asn1, get_signature_algorithm}
use pkcs.Message.Types.{Certificate, SignerInfo}
use pkcs.Message.Certificates.{get_cert_from_certs_by_issuer_and_serial}
use pkcs.Attributes.Encoding.{Encoding}
use pkcs.Attributes.Marshal.{unmarshal_attribute, marshal_attributes}
use pkcs.Message.Pkcs7.{Pkcs7}
use pkcs.Verify.Check.{
  VerifyOptions, unknown_hash, bad_attribute, X509, found, time_or, time_outside, check_digest,
  check_attributes, signed_bytes,
}

compare-eq : (xs ys : Bytes) → not (constant_time_compare xs ys == 1) ≡ false → xs ≡ ys
compare-eq xs ys h = bytes_equal→eq xs ys (bit_true (bytes_equal xs ys) h)
  where
    bit_true : (b : Bool) → not (bit b == 1) ≡ false → b ≡ true
    bit_true true k = refl
    bit_true false k = cc

compare_refl : (xs : Bytes) → not (constant_time_compare xs xs == 1) ≡ false
compare_refl xs = rw (bytes_equal_refl xs) refl

-- The time lies in the validity of the certificate, where there is one.
abbrev pub IsWithin : Certificate → Option ℕ → Type 0
IsWithin ee none = Unit {0}
IsWithin ee (some t) = (ee.not_before ≤ t) × (t ≤ ee.not_after)

time_outside-IsWithin :
    (ee : Certificate) (time : Option ℕ) → time_outside ee time ≡ false → IsWithin ee time
time_outside-IsWithin ee none h = tt
time_outside-IsWithin ee (some t) h = (ground arith, ground arith)

IsWithin-time_outside :
    (ee : Certificate) (time : Option ℕ) → IsWithin ee time → time_outside ee time ≡ false
IsWithin-time_outside ee none h = refl
IsWithin-time_outside ee (some t) h = ground arith

module _ (x509 : X509) (asn1 : Asn1) (enc : Encoding) where
  -- The bytes that the signature is of, and the signing time, for a signer with attributes: the message
  -- digest attribute is the digest of the content, and the signing time lies in the validity.
  pub record IsAttributed (content : Bytes) (ee : Certificate) (signer : SignerInfo)
      (signed : Bytes) (time : Option ℕ) : Type 0 where
    pub hash : Hash
    pub hash_is : get_hash_for_oid signer.digest_algorithm.algorithm ≡ ok hash
    pub digest_is :
        unmarshal_attribute enc.unmarshal_octets signer.authenticated_attributes
          Oids.attribute_message_digest
        ≡ ok (x509.digest hash content)
    pub signed_is : marshal_attributes enc signer.authenticated_attributes ≡ ok signed
    pub time_is :
        found (
          unmarshal_attribute enc.unmarshal_time signer.authenticated_attributes
            Oids.attribute_signing_time)
        ≡ time
    pub within : IsWithin ee time

  -- The content itself is signed if there are no attributes, and the attributes otherwise.
  pub data IsSigned (content : Bytes) (ee : Certificate) (signer : SignerInfo) (signed : Bytes)
      (time : Option ℕ) : Type 0 where
    plain :
        length signer.authenticated_attributes ≡ 0
        → content ≡ signed
        → none ≡ time
        → IsSigned content ee signer signed time
    attributed :
        length signer.authenticated_attributes ≢ 0
        → IsAttributed content ee signer signed time
        → IsSigned content ee signer signed time

  -- The chain is verified where roots are given.
  abbrev pub IsTrusted : Certificate → VerifyOptions → Option (List Certificate) → Type 0
  IsTrusted ee opts none = Unit {0}
  IsTrusted ee opts (some roots) = x509.verify ee opts ≡ true

  -- The options of the chain: at the signing time, or now, where no time is asked for.
  abbrev pub options_at : ℕ → VerifyOptions → Option ℕ → VerifyOptions
  options_at now opts time =
      if opts.current_time == 0 then record opts { current_time = time_or now time } else opts

  -- One signer is verified.
  pub record IsVerified (now : ℕ) (p7 : Pkcs7) (opts : VerifyOptions) (signer : SignerInfo)
      : Type 0 where
    pub ee : Certificate
    pub signed : Bytes
    pub time : Option ℕ
    pub algorithm : SignatureAlgorithm
    pub ee_is :
        get_cert_from_certs_by_issuer_and_serial p7.certificates signer.issuer_and_serial_number
        ≡ some ee
    pub content_is : IsSigned p7.content ee signer signed time
    pub trusted : IsTrusted ee (options_at now opts time) opts.roots
    pub algorithm_is :
        get_signature_algorithm asn1 signer.digest_encryption_algorithm signer.digest_algorithm
        ≡ ok algorithm
    pub signature : x509.check_signature ee algorithm signed signer.encrypted_digest ≡ true

  check_digest-eq-ok :
      (content : Bytes) (signer : SignerInfo)
      → check_digest x509 asn1 enc content signer ≡ ok tt
      → (hash : Hash) × (get_hash_for_oid signer.digest_algorithm.algorithm ≡ ok hash)
        × (unmarshal_attribute enc.unmarshal_octets signer.authenticated_attributes
              Oids.attribute_message_digest
            ≡ ok (x509.digest hash content))
  unfolding check_digest
  check_digest-eq-ok content signer h =
      let (expected, d, h1) =
        >>=-eq-ok
          (with_error bad_attribute (
            unmarshal_attribute enc.unmarshal_octets signer.authenticated_attributes
              Oids.attribute_message_digest))
          _ h in
      let (hash, k, h2) =
        >>=-eq-ok
          (with_error (λ (x : AlgorithmError). unknown_hash)
            (get_hash_for_oid signer.digest_algorithm.algorithm))
          _ h1 in
      let same = compare-eq expected (x509.digest hash content) (fail_if-eq-ok _ _ h2) in
      (hash, with_error-eq-ok _ _ k, with_error-eq-ok _ _ d ∙ ap ok same)

  check_digest_run :
      (content : Bytes) (signer : SignerInfo) (hash : Hash)
      → get_hash_for_oid signer.digest_algorithm.algorithm ≡ ok hash
      → unmarshal_attribute enc.unmarshal_octets signer.authenticated_attributes
          Oids.attribute_message_digest
        ≡ ok (x509.digest hash content)
      → check_digest x509 asn1 enc content signer ≡ ok tt
  unfolding check_digest
  check_digest_run content signer hash h d =
      rw (d, h, bytes_equal_refl (x509.digest hash content)) refl

  check_attributes-IsAttributed :
      (content : Bytes) (ee : Certificate) (signer : SignerInfo) (signed : Bytes) (time : Option ℕ)
      → check_attributes x509 asn1 enc content ee signer ≡ ok (signed, time)
      → IsAttributed content ee signer signed time
  unfolding check_attributes
  check_attributes-IsAttributed content ee signer signed time e =
      let (u, h, e1) = >>=-eq-ok (check_digest x509 asn1 enc content signer) _ e in
      let (hash, k, d) = check_digest-eq-ok content signer h in
      let (encoded, s, e2) =
        >>=-eq-ok
          (with_error bad_attribute (marshal_attributes enc signer.authenticated_attributes)) _
          e1 in
      let (v, w, e3) =
        >>=-eq-ok
          (fail_if
            (time_outside ee (
              found (
                unmarshal_attribute enc.unmarshal_time signer.authenticated_attributes
                  Oids.attribute_signing_time)))
            _)
          _ e2 in
      let both = ok_injective e3 in
      record {
        hash = hash;
        hash_is = k;
        digest_is = d;
        signed_is = with_error-eq-ok _ _ s ∙ ap (λ (p : Bytes × Option ℕ). ok p.0) both;
        time_is = ap (λ (p : Bytes × Option ℕ). p.1) both;
        within =
            time_outside-IsWithin ee time
              (ap (λ (p : Bytes × Option ℕ). time_outside ee p.1) (sym both) ∙ fail_if-eq-ok _ _ w);
      }

  check_attributes_run :
      (content : Bytes) (ee : Certificate) (signer : SignerInfo) (signed : Bytes) (time : Option ℕ)
      → IsAttributed content ee signer signed time
      → check_attributes x509 asn1 enc content ee signer ≡ ok (signed, time)
  unfolding check_attributes
  check_attributes_run content ee signer signed time a =
      rw
        (
          check_digest_run content signer a.hash a.hash_is a.digest_is,
          a.signed_is,
          a.time_is,
          IsWithin-time_outside ee time a.within,
        )
        refl

  pub signed_bytes-IsSigned :
      (content : Bytes) (ee : Certificate) (signer : SignerInfo) (signed : Bytes) (time : Option ℕ)
      → signed_bytes x509 asn1 enc content ee signer ≡ ok (signed, time)
      → IsSigned content ee signer signed time
  unfolding signed_bytes
  signed_bytes-IsSigned content ee signer signed time e =
      elim (Bool-cases (length signer.authenticated_attributes == 0)) [
        | inl empty ↦
            let both = ok_injective (rw empty at e) in
            plain (==→eq _ _ empty) (ap (λ (p : Bytes × Option ℕ). p.0) both)
              (ap (λ (p : Bytes × Option ℕ). p.1) both)
        | inr full ↦
            attributed (ground arith)
              (check_attributes-IsAttributed content ee signer signed time (rw full at e))
      ]

  pub signed_bytes_run :
      (content : Bytes) (ee : Certificate) (signer : SignerInfo) (signed : Bytes) (time : Option ℕ)
      → IsSigned content ee signer signed time
      → signed_bytes x509 asn1 enc content ee signer ≡ ok (signed, time)
  unfolding signed_bytes
  signed_bytes_run content ee signer signed time (plain empty e f) = rw (empty, e, f) refl
  signed_bytes_run content ee signer signed time (attributed full a) =
      let test : (length signer.authenticated_attributes == 0) ≡ false = ground arith in
      rw test (check_attributes_run content ee signer signed time a)
