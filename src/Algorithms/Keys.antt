-- ===== src/Algorithms/Keys.antt =====
-- The types of Go's crypto packages that decide how a message is signed and verified.
use pkcs.Base.{ℕ, Bool, Bytes}
use pkcs.Algorithms.Oids.{Oid}

-- `crypto.Hash`, the hashes that the program uses.
pub data Hash : Type 0 where
  sha1 sha256 sha384 sha512 : Hash

-- `x509.SignatureAlgorithm`
pub data SignatureAlgorithm : Type 0 where
  unknown_signature_algorithm md2_with_rsa md5_with_rsa : SignatureAlgorithm
  sha1_with_rsa sha256_with_rsa sha384_with_rsa sha512_with_rsa : SignatureAlgorithm
  dsa_with_sha1 dsa_with_sha256 : SignatureAlgorithm
  ecdsa_with_sha1 ecdsa_with_sha256 ecdsa_with_sha384 ecdsa_with_sha512 : SignatureAlgorithm
  sha256_with_rsa_pss sha384_with_rsa_pss sha512_with_rsa_pss : SignatureAlgorithm
  pure_ed25519 ml_dsa44 ml_dsa65 ml_dsa87 : SignatureAlgorithm

-- `mldsa.Parameters`, with the zero value of a key that was not initialised.
pub data Parameters : Type 0 where
  parameters44 parameters65 parameters87 no_parameters : Parameters

-- The dynamic type of `crypto.PublicKey`.
pub data PublicKey : Type 0 where
  rsa_key ecdsa_key ed25519_key other_key : PublicKey
  ml_dsa_key : Parameters → PublicKey

-- The dynamic type of `keyOrSigner`, with the key that `signer.Public()` returns.
pub data KeyOrSigner : Type 0 where
  dsa_private_key no_signer : KeyOrSigner
  signer : PublicKey → KeyOrSigner

-- `asn1.RawValue`
pub record RawValue : Type 0 where
  pub class : ℕ
  pub tag : ℕ
  pub is_compound : Bool
  pub bytes : Bytes
  pub full_bytes : Bytes

-- `pkix.AlgorithmIdentifier`
pub record AlgorithmIdentifier : Type 0 where
  pub algorithm : Oid
  pub parameters : RawValue
