-- ===== src/Algorithms/Runs.antt =====
-- Runs of the identifier functions of pkcs7.go, sign.go and verify.go at concrete inputs.
use pkcs.Base.{◌≡◌, ◌↔◌, refl, false, if◌then◌else◌, none, some, [], ◌∷◌, Bytes, ok, err, ◌>>=◌}
use pkcs.Subtle.{bytes_equal}
use pkcs.Algorithms.Oids
use pkcs.Algorithms.Oids.{Oid}
use pkcs.Algorithms.Keys.{Hash, SignatureAlgorithm, PublicKey, KeyOrSigner, AlgorithmIdentifier}
use pkcs.Algorithms.Choose.{
  find, get_hash_for_oid, get_digest_oid_for_signature_algorithm, get_cms_signer_algorithm,
  ml_dsa_algorithm_for_oid,
}
use pkcs.Algorithms.Accept.{
  Asn1, pos, PssParameters, VerifyError, pss_hash, check_pss, get_rsa_pss_signature_algorithm,
  classical_signature_algorithm, get_signature_algorithm,
}
use pkcs.Algorithms.Pss.{IsPssProfile, get_rsa_pss_signature_algorithm_iff}
use pkcs.Algorithms.Laws.{
  plain, Chooses, result, get_signature_algorithm-get_cms_signer_algorithm,
  get_hash_for_oid-get_signature_algorithm, get_hash_for_oid-get_digest_oid_for_signature_algorithm,
}

-- Parameters that are encoded as the bytes given.
abbrev with_parameters : Oid → Bytes → AlgorithmIdentifier
with_parameters oid encoded = record {
  algorithm = oid;
  parameters = record {
    class = 0;
    tag = 16;
    is_compound = false;
    bytes = [];
    full_bytes = encoded;
  };
}

-- PSS with SHA-256, in a decoder that knows two encodings.
abbrev pss_sha256_parameters : PssParameters
pss_sha256_parameters = record {
  hash = plain Oids.digest_algorithm_sha256;
  mgf = with_parameters Oids.mask_generation_function_mgf1 (2 ∷ []);
  salt_length = pos 32;
  trailer_field = pos 1;
}

abbrev small_asn1 : Asn1
small_asn1 = record {
  unmarshal_pss = λ bs. if bytes_equal bs (1 ∷ []) then some (pss_sha256_parameters, []) else none;
  unmarshal_identifier =
      λ bs. if bytes_equal bs (2 ∷ []) then some (plain Oids.digest_algorithm_sha256, []) else none;
}

abbrev pss_identifier : AlgorithmIdentifier
pss_identifier = with_parameters Oids.encryption_algorithm_rsa_pss (1 ∷ [])

abbrev sha256 : AlgorithmIdentifier
sha256 = plain Oids.digest_algorithm_sha256

get_rsa_pss_signature_algorithm_iff_example :
    (get_rsa_pss_signature_algorithm small_asn1 pss_identifier.parameters sha256
      ≡ ok SignatureAlgorithm.sha256_with_rsa_pss)
    ↔ IsPssProfile small_asn1 pss_identifier.parameters sha256
        SignatureAlgorithm.sha256_with_rsa_pss
get_rsa_pss_signature_algorithm_iff_example =
    get_rsa_pss_signature_algorithm_iff small_asn1 pss_identifier.parameters sha256
      SignatureAlgorithm.sha256_with_rsa_pss

accepts_pss :
    get_signature_algorithm small_asn1 pss_identifier sha256
    ≡ ok SignatureAlgorithm.sha256_with_rsa_pss
unfolding get_signature_algorithm ml_dsa_algorithm_for_oid find classical_signature_algorithm
    get_rsa_pss_signature_algorithm check_pss pss_hash bytes_equal
accepts_pss = refl

-- The signer's digest is not the hash of the parameters.
rejects_pss :
    get_rsa_pss_signature_algorithm small_asn1 pss_identifier.parameters
      (plain Oids.digest_algorithm_sha512)
    ≡ err VerifyError.digest_differs
unfolding get_rsa_pss_signature_algorithm check_pss pss_hash bytes_equal
rejects_pss = refl

get_hash_for_oid-get_signature_algorithm_example :
    get_hash_for_oid Oids.digest_algorithm_sha256 ≡ ok Hash.sha256
get_hash_for_oid-get_signature_algorithm_example =
    get_hash_for_oid-get_signature_algorithm sha256 small_asn1 pss_identifier
      SignatureAlgorithm.sha256_with_rsa_pss Hash.sha256 accepts_pss refl

get_signature_algorithm-get_cms_signer_algorithm_example :
    Chooses small_asn1
      (get_cms_signer_algorithm
        (KeyOrSigner.signer PublicKey.ecdsa_key)
        Oids.digest_algorithm_sha384
        none)
      (some SignatureAlgorithm.ecdsa_with_sha384)
get_signature_algorithm-get_cms_signer_algorithm_example =
    get_signature_algorithm-get_cms_signer_algorithm small_asn1 PublicKey.ecdsa_key Hash.sha384

get_hash_for_oid-get_digest_oid_for_signature_algorithm_example :
    result (get_digest_oid_for_signature_algorithm SignatureAlgorithm.ml_dsa65 >>= get_hash_for_oid)
    ≡ some Hash.sha512
get_hash_for_oid-get_digest_oid_for_signature_algorithm_example =
    get_hash_for_oid-get_digest_oid_for_signature_algorithm SignatureAlgorithm.ml_dsa65
