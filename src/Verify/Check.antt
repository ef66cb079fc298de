-- ===== src/Verify/Check.antt =====
-- verify.go: `Verify`, `VerifyWithChain`, `VerifyWithChainAtTime`, `VerifyWithOpts`, `verifySignature`,
-- `verifySignatureAtTime`, `GetOnlySigner` and `UnmarshalSignedAttribute`.
use pkcs.Base.{
  ℕ, ◌+◌, Bool, false, ◌||◌, not, ltb, ◌==◌, if◌then◌else◌, Option, none, some, List, [], ◌∷◌,
  length, Bytes, Outcome, ok, err, panic, stuck, ◌>>=◌, ◌>>◌, fail_if, value_or, with_error,
}
use pkcs.Subtle.{constant_time_compare}
use pkcs.Algorithms.Oids
use pkcs.Algorithms.Oids.{Oid}
use pkcs.Algorithms.Keys.{Hash, SignatureAlgorithm}
use pkcs.Algorithms.Choose.{AlgorithmError, get_hash_for_oid}
use pkcs.Algorithms.Accept.{VerifyError, Asn1, get_signature_algorithm}
use pkcs.Message.Types.{Certificate, SignerInfo}
use pkcs.Message.Pkcs7.{Pkcs7, raw_signed, raw_enveloped, raw_encrypted, raw_nil}
use pkcs.Message.Certificates.{get_cert_from_certs_by_issuer_and_serial}
use pkcs.Attributes.Encoding.{Encoding}
use pkcs.Attributes.Marshal.{AttributeError, unmarshal_attribute, marshal_attributes}

-- `x509.VerifyOptions`, as the program sets it. `none` stands for nil.
pub record VerifyOptions : Type 0 where
  pub roots : Option (List Certificate)
  pub intermediates : List Certificate
  pub key_usages : Option (List ℕ)
  pub current_time : ℕ

pub data CheckError : Type 0 where
  no_signers no_certificate unknown_hash digest_mismatch outside_validity bad_chain : CheckError
  bad_attribute : AttributeError → CheckError
  bad_algorithm : VerifyError → CheckError
  bad_signature not_signed_data : CheckError

-- Go's crypto/x509 and the hashes, as parameters.
pub record X509 : Type 0 where
  pub digest : Hash → Bytes → Bytes
  pub check_signature : Certificate → SignatureAlgorithm → Bytes → Bytes → Bool
  pub verify : Certificate → VerifyOptions → Bool

-- `signingTime`, where the attribute is decoded.
abbrev pub found : {E A : Type 0} → Outcome E A → Option A
found (ok a) = some a
found (err e) = none
found panic = none
found stuck = none

-- `signingTime.After(ee.NotAfter) || signingTime.Before(ee.NotBefore)`
abbrev pub outside : Certificate → ℕ → Bool
outside ee time = ltb ee.not_after time || ltb time ee.not_before

-- The signing time, or the time of the clock where the attribute is not decoded.
abbrev pub time_or : ℕ → Option ℕ → ℕ
time_or now none = now
time_or now (some t) = t

-- The validity check, where there is a signing time.
abbrev pub time_outside : Certificate → Option ℕ → Bool
time_outside ee none = false
time_outside ee (some t) = outside ee t

-- `opts.Roots != nil`, and the chain is not verified.
abbrev pub chain_fails : X509 → Certificate → VerifyOptions → Option (List Certificate) → Bool
chain_fails x509 ee opts none = false
chain_fails x509 ee opts (some roots) = not (x509.verify ee opts)

-- `ExtKeyUsageAny`, where no usage is set.
abbrev pub default_usages : VerifyOptions → VerifyOptions
default_usages opts = elim opts.key_usages [
  | none ↦ record opts { key_usages = some (0 ∷ []) }
  | some usages ↦ opts
]

module _ (x509 : X509) (asn1 : Asn1) (enc : Encoding) where
  -- The comparison of the message digest attribute with the digest of the content.
  unfoldable pub check_digest : Bytes → SignerInfo → Outcome CheckError (Unit {0})
  check_digest content signer = do
    expected ← with_error bad_attribute (
        unmarshal_attribute enc.unmarshal_octets signer.authenticated_attributes
          Oids.attribute_message_digest)
    hash ←
        with_error (λ (e : AlgorithmError). unknown_hash)
          (get_hash_for_oid signer.digest_algorithm.algorithm)
    fail_if (not (constant_time_compare expected (x509.digest hash content) == 1)) digest_mismatch

  -- The block for a signer with authenticated attributes: the bytes that are signed, and the signing
  -- time, if there is one.
  unfoldable pub check_attributes :
      Bytes → Certificate → SignerInfo → Outcome CheckError (Bytes × Option ℕ)
  check_attributes content ee signer = do
    check_digest content signer
    signed ← with_error bad_attribute (marshal_attributes enc signer.authenticated_attributes)
    let time = found (
        unmarshal_attribute enc.unmarshal_time signer.authenticated_attributes
          Oids.attribute_signing_time)
    fail_if (time_outside ee time) outside_validity
    ok (signed, time)

  unfoldable pub signed_bytes :
      Bytes → Certificate → SignerInfo → Outcome CheckError (Bytes × Option ℕ)
  signed_bytes content ee signer =
      if length signer.authenticated_attributes == 0
      then ok (content, none)
      else check_attributes content ee signer

  -- The end of both functions: the chain, where roots are given, and the signature.
  unfoldable pub check_chain_and_signature :
      VerifyOptions → Certificate → SignerInfo → Bytes → Outcome CheckError (Unit {0})
  check_chain_and_signature opts ee signer signed = do
    fail_if (chain_fails x509 ee opts opts.roots) bad_chain
    algorithm ←
        with_error bad_algorithm
          (get_signature_algorithm asn1 signer.digest_encryption_algorithm signer.digest_algorithm)
    fail_if (not (x509.check_signature ee algorithm signed signer.encrypted_digest)) bad_signature

  unfoldable pub verify_signature_at_time :
      Pkcs7 → SignerInfo → VerifyOptions → Outcome CheckError (Unit {0})
  verify_signature_at_time p7 signer opts = do
    ee ←
        value_or
          (get_cert_from_certs_by_issuer_and_serial p7.certificates signer.issuer_and_serial_number)
          no_certificate
    (signed, _) ← signed_bytes p7.content ee signer
    check_chain_and_signature opts ee signer signed

  -- `now` is what the clock shows.
  unfoldable pub verify_signature :
      ℕ → Pkcs7 → SignerInfo → VerifyOptions → Outcome CheckError (Unit {0})
  verify_signature now p7 signer opts = do
    ee ←
        value_or
          (get_cert_from_certs_by_issuer_and_serial p7.certificates signer.issuer_and_serial_number)
          no_certificate
    (signed, time) ← signed_bytes p7.content ee signer
    check_chain_and_signature (record opts { current_time = time_or now time }) ee signer signed

  -- The loop over the signers, which stops at the first error; `check i` is the call for the i-th.
  unfoldable pub verify_each :
      (ℕ → SignerInfo → Outcome CheckError (Unit {0}))
      → ℕ
      → List SignerInfo
      → Outcome CheckError (Unit {0})
  verify_each check i [] = ok tt
  verify_each check i (signer ∷ signers) = do check i signer; verify_each check (i + 1) signers

  -- `clock i` is the time at the i-th call of `verifySignature`.
  unfoldable pub verify_with_opts : (ℕ → ℕ) → Pkcs7 → VerifyOptions → Outcome CheckError (Unit {0})
  verify_with_opts clock p7 given = do
    let opts = default_usages given
    fail_if (length p7.signers == 0) no_signers
    verify_each
        (λ i signer.
          if opts.current_time == 0
          then verify_signature (clock i) p7 signer opts
          else verify_signature_at_time p7 signer opts)
        0 p7.signers

  unfoldable pub verify_with_chain :
      (ℕ → ℕ) → Pkcs7 → Option (List Certificate) → Outcome CheckError (Unit {0})
  verify_with_chain clock p7 truststore = verify_with_opts clock p7 (record {
    roots = truststore;
    intermediates = p7.certificates;
    key_usages = none;
    current_time = 0;
  })

  unfoldable pub verify_with_chain_at_time :
      (ℕ → ℕ) → Pkcs7 → Option (List Certificate) → ℕ → Outcome CheckError (Unit {0})
  verify_with_chain_at_time clock p7 truststore current_time = verify_with_opts clock p7 (record {
    roots = truststore;
    intermediates = p7.certificates;
    key_usages = none;
    current_time = current_time;
  })

  unfoldable pub verify : (ℕ → ℕ) → Pkcs7 → Outcome CheckError (Unit {0})
  verify clock p7 = verify_with_chain clock p7 none

-- The first of the signers, if there is no other.
abbrev pub only : List SignerInfo → Option SignerInfo
only [] = none
only (signer ∷ []) = some signer
only (signer ∷ other ∷ more) = none

unfoldable pub get_only_signer : Pkcs7 → Option Certificate
get_only_signer p7 = elim (only p7.signers) [
  | none ↦ none
  | some signer ↦
      get_cert_from_certs_by_issuer_and_serial p7.certificates signer.issuer_and_serial_number
]

unfoldable pub unmarshal_signed_attribute :
    {A : Type 0} → (Bytes → Option A) → Pkcs7 → Oid → Outcome CheckError A
unmarshal_signed_attribute decode p7 oid = elim p7.raw [
  | raw_enveloped ed ↦ err not_signed_data
  | raw_encrypted ed ↦ err not_signed_data
  | raw_nil ↦ err not_signed_data
  | raw_signed sd ↦ elim sd.signer_infos [
    | [] ↦ err no_signers
    | signer ∷ rest ↦
        with_error bad_attribute (unmarshal_attribute decode signer.authenticated_attributes oid)
  ]
]
