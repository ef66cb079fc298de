-- ===== src/Algorithms/Choose.antt =====
-- pkcs7.go and sign.go: the choice of object identifiers for a signature.
use pkcs.Base.{
  Bool, true, false, ◌||◌, if◌then◌else◌, Option, none, some, List, [], ◌∷◌, Outcome, ok, err,
  ◌>>=◌,
}
use pkcs.Algorithms.Oids
use pkcs.Algorithms.Oids.{Oid, equal}
use pkcs.Algorithms.Keys.{Hash, SignatureAlgorithm, Parameters, PublicKey, KeyOrSigner}

pub data AlgorithmError : Type 0 where
  unsupported_algorithm unknown_hash_algorithm not_a_signer unsupported_parameter_set
        unknown_key_type :
      AlgorithmError

unfoldable pub get_hash_for_oid : Oid → Outcome AlgorithmError Hash
get_hash_for_oid oid =
    if equal oid Oids.digest_algorithm_sha1
      || (equal oid Oids.digest_algorithm_ecdsa_sha1
          || (equal oid Oids.digest_algorithm_dsa
              || (equal oid Oids.digest_algorithm_dsa_sha1
                  || equal oid Oids.encryption_algorithm_rsa)))
    then ok Hash.sha1
    else if equal oid Oids.digest_algorithm_sha256 || equal oid Oids.digest_algorithm_ecdsa_sha256
    then ok Hash.sha256
    else if equal oid Oids.digest_algorithm_sha384 || equal oid Oids.digest_algorithm_ecdsa_sha384
    then ok Hash.sha384
    else if equal oid Oids.digest_algorithm_sha512 || equal oid Oids.digest_algorithm_ecdsa_sha512
    then ok Hash.sha512
    else err unsupported_algorithm

unfoldable pub get_digest_oid_for_signature_algorithm :
    SignatureAlgorithm → Outcome AlgorithmError Oid
get_digest_oid_for_signature_algorithm SignatureAlgorithm.sha1_with_rsa =
    ok Oids.digest_algorithm_sha1
get_digest_oid_for_signature_algorithm SignatureAlgorithm.ecdsa_with_sha1 =
    ok Oids.digest_algorithm_sha1
get_digest_oid_for_signature_algorithm SignatureAlgorithm.sha256_with_rsa =
    ok Oids.digest_algorithm_sha256
get_digest_oid_for_signature_algorithm SignatureAlgorithm.ecdsa_with_sha256 =
    ok Oids.digest_algorithm_sha256
get_digest_oid_for_signature_algorithm SignatureAlgorithm.sha384_with_rsa =
    ok Oids.digest_algorithm_sha384
get_digest_oid_for_signature_algorithm SignatureAlgorithm.ecdsa_with_sha384 =
    ok Oids.digest_algorithm_sha384
get_digest_oid_for_signature_algorithm SignatureAlgorithm.sha512_with_rsa =
    ok Oids.digest_algorithm_sha512
get_digest_oid_for_signature_algorithm SignatureAlgorithm.ecdsa_with_sha512 =
    ok Oids.digest_algorithm_sha512
get_digest_oid_for_signature_algorithm SignatureAlgorithm.pure_ed25519 =
    ok Oids.digest_algorithm_sha512
get_digest_oid_for_signature_algorithm SignatureAlgorithm.ml_dsa44 = ok Oids.digest_algorithm_sha512
get_digest_oid_for_signature_algorithm SignatureAlgorithm.ml_dsa65 = ok Oids.digest_algorithm_sha512
get_digest_oid_for_signature_algorithm SignatureAlgorithm.ml_dsa87 = ok Oids.digest_algorithm_sha512
get_digest_oid_for_signature_algorithm _ = err unknown_hash_algorithm

pub record MlDsaAlgorithm : Type 0 where
  pub parameters : Parameters
  pub oid : Oid
  pub signature_algorithm : SignatureAlgorithm

abbrev pub ml_dsa_algorithms : List MlDsaAlgorithm
ml_dsa_algorithms =
    record {
      parameters = Parameters.parameters44;
      oid = Oids.signature_algorithm_mldsa44;
      signature_algorithm = SignatureAlgorithm.ml_dsa44;
    }
    ∷ record {
      parameters = Parameters.parameters65;
      oid = Oids.signature_algorithm_mldsa65;
      signature_algorithm = SignatureAlgorithm.ml_dsa65;
    }
    ∷ record {
      parameters = Parameters.parameters87;
      oid = Oids.signature_algorithm_mldsa87;
      signature_algorithm = SignatureAlgorithm.ml_dsa87;
    }
    ∷ []

-- `public.Parameters() == algorithm.parameters`
abbrev pub same_parameters : Parameters → Parameters → Bool
same_parameters Parameters.parameters44 Parameters.parameters44 = true
same_parameters Parameters.parameters65 Parameters.parameters65 = true
same_parameters Parameters.parameters87 Parameters.parameters87 = true
same_parameters Parameters.no_parameters Parameters.no_parameters = true
same_parameters _ _ = false

-- The first element that passes a test, as `range` loops with a `return` inside find it.
unfoldable pub find : {A : Type 0} → (A → Bool) → List A → Option A
find test [] = none
find test (a ∷ rest) = if test a then some a else find test rest

unfoldable pub ml_dsa_algorithm_for_public_key : PublicKey → Option MlDsaAlgorithm
ml_dsa_algorithm_for_public_key (PublicKey.ml_dsa_key parameters) =
    find (λ (a : MlDsaAlgorithm). same_parameters parameters a.parameters) ml_dsa_algorithms
ml_dsa_algorithm_for_public_key _ = none

unfoldable pub ml_dsa_algorithm_for_oid : Oid → Option MlDsaAlgorithm
ml_dsa_algorithm_for_oid oid = find (λ (a : MlDsaAlgorithm). equal oid a.oid) ml_dsa_algorithms

unfoldable pub get_oid_for_encryption_algorithm : KeyOrSigner → Oid → Outcome AlgorithmError Oid
get_oid_for_encryption_algorithm KeyOrSigner.dsa_private_key digest = ok Oids.digest_algorithm_dsa
get_oid_for_encryption_algorithm KeyOrSigner.no_signer digest = err not_a_signer
get_oid_for_encryption_algorithm (KeyOrSigner.signer PublicKey.rsa_key) digest =
    if equal digest Oids.encryption_algorithm_rsa
    then ok Oids.encryption_algorithm_rsa
    else if equal digest Oids.digest_algorithm_sha1
    then ok Oids.encryption_algorithm_rsa_sha1
    else if equal digest Oids.digest_algorithm_sha256
    then ok Oids.encryption_algorithm_rsa_sha256
    else if equal digest Oids.digest_algorithm_sha384
    then ok Oids.encryption_algorithm_rsa_sha384
    else if equal digest Oids.digest_algorithm_sha512
    then ok Oids.encryption_algorithm_rsa_sha512
    else ok Oids.encryption_algorithm_rsa
get_oid_for_encryption_algorithm (KeyOrSigner.signer PublicKey.ecdsa_key) digest =
    if equal digest Oids.digest_algorithm_sha1
    then ok Oids.digest_algorithm_ecdsa_sha1
    else if equal digest Oids.digest_algorithm_sha256
    then ok Oids.digest_algorithm_ecdsa_sha256
    else if equal digest Oids.digest_algorithm_sha384
    then ok Oids.digest_algorithm_ecdsa_sha384
    else if equal digest Oids.digest_algorithm_sha512
    then ok Oids.digest_algorithm_ecdsa_sha512
    else err unknown_key_type
get_oid_for_encryption_algorithm (KeyOrSigner.signer PublicKey.ed25519_key) digest =
    ok Oids.encryption_algorithm_eddsa25519
get_oid_for_encryption_algorithm (KeyOrSigner.signer (PublicKey.ml_dsa_key parameters)) digest =
    elim (ml_dsa_algorithm_for_public_key (PublicKey.ml_dsa_key parameters)) [
      | none ↦ err unsupported_parameter_set
      | some a ↦ ok a.oid
    ]
get_oid_for_encryption_algorithm (KeyOrSigner.signer PublicKey.other_key) digest =
    err unknown_key_type

pub data CmsSigningMode : Type 0 where
  mode_pre_hashed mode_dsa mode_ed25519 mode_ml_dsa : CmsSigningMode

pub record CmsSignerAlgorithm : Type 0 where
  pub digest_oid : Oid
  pub signature_oid : Oid
  pub mode : CmsSigningMode

-- `signer.Public().(ed25519.PublicKey)`
abbrev pub mode_for : PublicKey → CmsSigningMode
mode_for PublicKey.ed25519_key = mode_ed25519
mode_for _ = mode_pre_hashed

-- `signatureOID`, behind the test for the `nil` of an identifier that was not configured.
abbrev pub configured_or_chosen : PublicKey → Oid → Option Oid → Outcome AlgorithmError Oid
configured_or_chosen public digest none =
    get_oid_for_encryption_algorithm (KeyOrSigner.signer public) digest
configured_or_chosen public digest (some oid) = ok oid

unfoldable pub get_cms_signer_algorithm :
    KeyOrSigner → Oid → Option Oid → Outcome AlgorithmError CmsSignerAlgorithm
get_cms_signer_algorithm KeyOrSigner.dsa_private_key digest configured = do
  oid ← get_oid_for_encryption_algorithm KeyOrSigner.dsa_private_key digest
  ok (record { digest_oid = digest; signature_oid = oid; mode = mode_dsa })
get_cms_signer_algorithm KeyOrSigner.no_signer digest configured = err not_a_signer
get_cms_signer_algorithm (KeyOrSigner.signer public) digest configured =
    elim (ml_dsa_algorithm_for_public_key public) [
      | some a ↦ ok (record {
        digest_oid = Oids.digest_algorithm_sha512;
        signature_oid = a.oid;
        mode = mode_ml_dsa;
      })
      | none ↦ do
        oid ← configured_or_chosen public digest configured
        ok (record { digest_oid = digest; signature_oid = oid; mode = mode_for public })
    ]
