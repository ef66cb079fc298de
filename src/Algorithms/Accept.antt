-- ===== src/Algorithms/Accept.antt =====
-- verify.go: the signature algorithm that the identifiers of a signer stand for.
use pkcs.Base.{
  ℕ, Bool, true, false, ◌||◌, ◌&&◌, not, ◌==◌, if◌then◌else◌, Option, none, some, [], ◌∷◌, length,
  Bytes, Outcome, ok, err, ◌>>=◌, ◌>>◌, fail_if,
}
use pkcs.Subtle.{bytes_equal}
use pkcs.Algorithms.Oids
use pkcs.Algorithms.Oids.{Oid, equal}
use pkcs.Algorithms.Keys.{SignatureAlgorithm, RawValue, AlgorithmIdentifier}
use pkcs.Algorithms.Choose.{ml_dsa_algorithm_for_oid}

pub data VerifyError : Type 0 where
  ml_dsa_parameters ec_parameters unsupported_digest dsa_not_supported unsupported_algorithm :
      VerifyError
  invalid_pss_parameters trailing_data unsupported_pss_hash unsupported_mgf invalid_mgf_parameters :
      VerifyError
  mgf_hash_differs unsupported_salt_length unsupported_trailer_field digest_differs : VerifyError

unfoldable pub algorithm_identifier_parameters_present : RawValue → Bool
algorithm_identifier_parameters_present p =
    not (p.class == 0)
    || (not (p.tag == 0)
        || (p.is_compound || (not (length p.bytes == 0) || not (length p.full_bytes == 0))))

-- `FullBytes` is compared with the two bytes of an encoded NULL.
unfoldable pub algorithm_identifier_parameters_absent_or_null : RawValue → Bool
algorithm_identifier_parameters_absent_or_null p =
    if not (algorithm_identifier_parameters_present p)
    then true
    else if not (length p.full_bytes == 0)
    then bytes_equal p.full_bytes (5 ∷ 0 ∷ [])
    else p.class == 0 && (p.tag == 5 && (not p.is_compound && length p.bytes == 0))

unfoldable pub get_ecdsa_signature_algorithm :
    AlgorithmIdentifier → Outcome VerifyError SignatureAlgorithm
get_ecdsa_signature_algorithm digest =
    if equal digest.algorithm Oids.digest_algorithm_sha1
    then ok SignatureAlgorithm.ecdsa_with_sha1
    else if equal digest.algorithm Oids.digest_algorithm_sha256
    then ok SignatureAlgorithm.ecdsa_with_sha256
    else if equal digest.algorithm Oids.digest_algorithm_sha384
    then ok SignatureAlgorithm.ecdsa_with_sha384
    else if equal digest.algorithm Oids.digest_algorithm_sha512
    then ok SignatureAlgorithm.ecdsa_with_sha512
    else err unsupported_digest

-- The inner switch of `getSignatureAlgorithm` for RSA.
unfoldable pub rsa_signature_algorithm :
    AlgorithmIdentifier → Outcome VerifyError SignatureAlgorithm
rsa_signature_algorithm digest =
    if equal digest.algorithm Oids.digest_algorithm_sha1
    then ok SignatureAlgorithm.sha1_with_rsa
    else if equal digest.algorithm Oids.digest_algorithm_sha256
    then ok SignatureAlgorithm.sha256_with_rsa
    else if equal digest.algorithm Oids.digest_algorithm_sha384
    then ok SignatureAlgorithm.sha384_with_rsa
    else if equal digest.algorithm Oids.digest_algorithm_sha512
    then ok SignatureAlgorithm.sha512_with_rsa
    else err unsupported_digest

-- Go's `int`, and `n == m` for a constant m.
pub data ℤ : Type 0 where
  pos : ℕ → ℤ
  negsuc : ℕ → ℤ

abbrev pub is_int : ℤ → ℕ → Bool
is_int (pos n) m = n == m
is_int (negsuc n) m = false

pub record PssParameters : Type 0 where
  pub hash : AlgorithmIdentifier
  pub mgf : AlgorithmIdentifier
  pub salt_length : ℤ
  pub trailer_field : ℤ

-- `asn1.Unmarshal` at the two types: the value and the bytes behind it, or an error.
pub record Asn1 : Type 0 where
  pub unmarshal_pss : Bytes → Option (PssParameters × Bytes)
  pub unmarshal_identifier : Bytes → Option (AlgorithmIdentifier × Bytes)

-- `signatureAlgorithm, hashSize` for a PSS hash.
unfoldable pub pss_hash : Oid → Outcome VerifyError (SignatureAlgorithm × ℕ)
pss_hash oid =
    if equal oid Oids.digest_algorithm_sha256
    then ok (SignatureAlgorithm.sha256_with_rsa_pss, 32)
    else if equal oid Oids.digest_algorithm_sha384
    then ok (SignatureAlgorithm.sha384_with_rsa_pss, 48)
    else if equal oid Oids.digest_algorithm_sha512
    then ok (SignatureAlgorithm.sha512_with_rsa_pss, 64)
    else err unsupported_pss_hash

-- Decode all of the input.
abbrev pub decode_all :
    {A : Type 0} → Option (A × Bytes) → VerifyError → VerifyError → Outcome VerifyError A
decode_all none invalid trailing = err invalid
decode_all (some (a, [])) invalid trailing = ok a
decode_all (some (a, b ∷ rest)) invalid trailing = err trailing

module _ (asn1 : Asn1) where
  -- The checks of `getRSAPSSSignatureAlgorithm` on the decoded parameters.
  unfoldable pub check_pss :
      PssParameters → AlgorithmIdentifier → Outcome VerifyError SignatureAlgorithm
  check_pss params digest = do
    chosen ← pss_hash params.hash.algorithm
    fail_if (not (equal params.mgf.algorithm Oids.mask_generation_function_mgf1)) unsupported_mgf
    mgf_hash ←
        decode_all (asn1.unmarshal_identifier params.mgf.parameters.full_bytes)
          invalid_mgf_parameters invalid_mgf_parameters
    fail_if (not (equal mgf_hash.algorithm params.hash.algorithm)) mgf_hash_differs
    fail_if (not (is_int params.salt_length chosen.1)) unsupported_salt_length
    fail_if (not (is_int params.trailer_field 1)) unsupported_trailer_field
    fail_if (not (equal digest.algorithm params.hash.algorithm)) digest_differs
    ok chosen.0

  unfoldable pub get_rsa_pss_signature_algorithm :
      RawValue → AlgorithmIdentifier → Outcome VerifyError SignatureAlgorithm
  get_rsa_pss_signature_algorithm parameters digest = do
    params ←
        decode_all (asn1.unmarshal_pss parameters.full_bytes) invalid_pss_parameters trailing_data
    check_pss params digest

  -- The switch of `getSignatureAlgorithm`, behind the ML-DSA test.
  unfoldable pub classical_signature_algorithm :
      AlgorithmIdentifier → AlgorithmIdentifier → Outcome VerifyError SignatureAlgorithm
  classical_signature_algorithm encryption digest =
      let oid = encryption.algorithm in
      if equal oid Oids.digest_algorithm_ecdsa_sha1
      then ok SignatureAlgorithm.ecdsa_with_sha1
      else if equal oid Oids.digest_algorithm_ecdsa_sha256
      then ok SignatureAlgorithm.ecdsa_with_sha256
      else if equal oid Oids.digest_algorithm_ecdsa_sha384
      then ok SignatureAlgorithm.ecdsa_with_sha384
      else if equal oid Oids.digest_algorithm_ecdsa_sha512
      then ok SignatureAlgorithm.ecdsa_with_sha512
      else if equal oid Oids.public_key_algorithm_ec
      then (fail_if (not (algorithm_identifier_parameters_absent_or_null encryption.parameters))
            ec_parameters
          >> get_ecdsa_signature_algorithm digest)
      else if equal oid Oids.encryption_algorithm_rsa
          || (equal oid Oids.encryption_algorithm_rsa_sha1
              || (equal oid Oids.encryption_algorithm_rsa_sha256
                  || (equal oid Oids.encryption_algorithm_rsa_sha384
                      || equal oid Oids.encryption_algorithm_rsa_sha512)))
      then rsa_signature_algorithm digest
      else if equal oid Oids.digest_algorithm_dsa || equal oid Oids.digest_algorithm_dsa_sha1
      then err dsa_not_supported
      else if equal oid Oids.encryption_algorithm_ecdsa_p256
          || (equal oid Oids.encryption_algorithm_ecdsa_p384
              || equal oid Oids.encryption_algorithm_ecdsa_p521)
      then get_ecdsa_signature_algorithm digest
      else if equal oid Oids.encryption_algorithm_eddsa25519
      then ok SignatureAlgorithm.pure_ed25519
      else if equal oid Oids.encryption_algorithm_rsa_pss
      then get_rsa_pss_signature_algorithm encryption.parameters digest
      else err unsupported_algorithm

  unfoldable pub get_signature_algorithm :
      AlgorithmIdentifier → AlgorithmIdentifier → Outcome VerifyError SignatureAlgorithm
  get_signature_algorithm encryption digest = elim (ml_dsa_algorithm_for_oid encryption.algorithm) [
    | some a ↦
        (fail_if (algorithm_identifier_parameters_present encryption.parameters) ml_dsa_parameters
          >> ok a.signature_algorithm)
    | none ↦ classical_signature_algorithm encryption digest
  ]
