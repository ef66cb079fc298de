-- ===== src/Verify/Binding.antt =====
-- verify.go: what an accepted message is bound to, and what it does not depend on.
use pkcs.Base.{
  ℕ, Bool, ◌≡◌, ◌≢◌, refl, sym, ap, ◌∙◌, subst, Option, some, List, [], ◌∷◌, length, get_elem?,
  Bytes, ok,
}
use pkcs.Algorithms.Keys.{Hash}
use pkcs.Algorithms.Choose.{get_hash_for_oid}
use pkcs.Algorithms.Accept.{Asn1}
use pkcs.Algorithms.Oids
use pkcs.Message.Types.{Certificate, SignerInfo}
use pkcs.Message.Certificates.{get_cert_from_certs_by_issuer_and_serial, IsNamed, get_cert-IsNamed}
use pkcs.Attributes.Encoding.{Encoding}
use pkcs.Attributes.Marshal.{unmarshal_attribute}
use pkcs.Message.Pkcs7.{Pkcs7}
use pkcs.Verify.Check.{
  VerifyOptions, X509, default_usages, found, check_digest, check_attributes, signed_bytes,
  check_chain_and_signature, verify_signature, verify_each, verify_with_opts, verify_with_chain,
  verify, only, get_only_signer,
}
use pkcs.Verify.Laws.{IsAttributed, IsSigned, plain, attributed, IsVerified, IsWithin}
use pkcs.Verify.Accepted.{verify_with_opts_iff}

module _ (x509 : X509) (asn1 : Asn1) (enc : Encoding) where
  -- A signer with attributes that is verified.
  IsSigned-IsAttributed :
      (content : Bytes) (ee : Certificate) (signer : SignerInfo) (signed : Bytes) (time : Option ℕ)
      → IsSigned x509 asn1 enc content ee signer signed time
      → length signer.authenticated_attributes ≢ 0
      → IsAttributed x509 asn1 enc content ee signer signed time
  IsSigned-IsAttributed content ee signer signed time (plain empty e f) full = absurd (full empty)
  IsSigned-IsAttributed content ee signer signed time (attributed h a) full = a

  signer-IsVerified :
      (clock : ℕ → ℕ) (p7 : Pkcs7) (opts : VerifyOptions) (k : ℕ) (signer : SignerInfo)
      → verify_with_opts x509 asn1 enc clock p7 opts ≡ ok tt
      → get_elem? p7.signers k ≡ some signer
      → IsVerified x509 asn1 enc (clock k) p7 (default_usages opts) signer
  signer-IsVerified clock p7 opts k signer e g =
      ((verify_with_opts_iff x509 asn1 enc clock p7 opts).0 e).1 k signer g

  -- The content is bound by the digest: where a message is accepted with two contents, whatever the
  -- options and the times, and a signer has attributes, both contents have the same digest, under the
  -- hash that the signer names.
  pub verify_with_opts-digest :
      (clock clock' : ℕ → ℕ) (p7 : Pkcs7) (content : Bytes) (opts opts' : VerifyOptions) (k : ℕ)
      (signer : SignerInfo)
      → verify_with_opts x509 asn1 enc clock p7 opts ≡ ok tt
      → verify_with_opts x509 asn1 enc clock' (record p7 { content = content }) opts' ≡ ok tt
      → get_elem? p7.signers k ≡ some signer
      → length signer.authenticated_attributes ≢ 0
      → (hash : Hash) × (get_hash_for_oid signer.digest_algorithm.algorithm ≡ ok hash)
        × (x509.digest hash p7.content ≡ x509.digest hash content)
  verify_with_opts-digest clock clock' p7 content opts opts' k signer e f g full =
      let v = signer-IsVerified clock p7 opts k signer e g in
      let w = signer-IsVerified clock' (record p7 { content = content }) opts' k signer f g in
      let a = IsSigned-IsAttributed p7.content v.ee signer v.signed v.time v.content_is full in
      let b = IsSigned-IsAttributed content w.ee signer w.signed w.time w.content_is full in
      let one_hash : a.hash ≡ b.hash = cc (a.hash_is, b.hash_is) in
      let digests : x509.digest a.hash p7.content ≡ x509.digest b.hash content =
        cc (a.digest_is, b.digest_is) in
      (a.hash, a.hash_is, digests ∙ ap (λ (h : Hash). x509.digest h content) (sym one_hash))

  -- A signing time outside the validity of the signer's certificate is refused with all options, also
  -- where the time of the chain is given.
  pub verify_with_opts-outside :
      (clock : ℕ → ℕ) (p7 : Pkcs7) (opts : VerifyOptions) (k : ℕ) (signer : SignerInfo)
      (ee : Certificate) (time : ℕ)
      → get_elem? p7.signers k ≡ some signer
      → get_cert_from_certs_by_issuer_and_serial p7.certificates signer.issuer_and_serial_number
        ≡ some ee
      → length signer.authenticated_attributes ≢ 0
      → unmarshal_attribute enc.unmarshal_time signer.authenticated_attributes
          Oids.attribute_signing_time
        ≡ ok time
      → ¬ (IsWithin ee (some time))
      → verify_with_opts x509 asn1 enc clock p7 opts ≢ ok tt
  verify_with_opts-outside clock p7 opts k signer ee time g named full at outside e =
      let v = signer-IsVerified clock p7 opts k signer e g in
      let a = IsSigned-IsAttributed p7.content v.ee signer v.signed v.time v.content_is full in
      let same_ee : v.ee ≡ ee = cc (v.ee_is, named) in
      let same_time : v.time ≡ some time = sym a.time_is ∙ ap found at in
      outside (
        subst (λ (c : Certificate). IsWithin c (some time)) same_ee
          (subst (IsWithin v.ee) same_time a.within))

  -- Where a message with one signer is accepted, `GetOnlySigner` returns the certificate that the
  -- signer names by issuer and number.
  pub get_only_signer-verify_with_opts :
      (clock : ℕ → ℕ) (p7 : Pkcs7) (opts : VerifyOptions) (signer : SignerInfo)
      → p7.signers ≡ signer ∷ []
      → verify_with_opts x509 asn1 enc clock p7 opts ≡ ok tt
      → (ee : Certificate) × (get_only_signer p7 ≡ some ee)
        × IsNamed ee signer.issuer_and_serial_number
  unfolding get_only_signer
  get_only_signer-verify_with_opts clock p7 opts signer one e =
      let v =
        signer-IsVerified clock p7 opts 0 signer e
          (ap (λ (s : List SignerInfo). get_elem? s 0) one) in
      let here : only p7.signers ≡ some signer = ap only one in
      (
        v.ee,
        rw (get_only_signer, here) v.ee_is,
        get_cert-IsNamed p7.certificates signer.issuer_and_serial_number v.ee v.ee_is,
      )

  -- `Verify` depends neither on the clock nor on the verification of chains.
  pub verify_clock :
      (chains : Certificate → VerifyOptions → Bool) (clock clock' : ℕ → ℕ) (p7 : Pkcs7)
      → verify x509 asn1 enc clock p7 ≡ verify (record x509 { verify = chains }) asn1 enc clock' p7
  unfolding verify verify_with_chain verify_with_opts verify_signature check_chain_and_signature
      signed_bytes check_attributes check_digest verify_each
  verify_clock chains clock clock' p7 = refl
