-- ===== src/Algorithms/Oids.antt =====
-- pkcs7.go, the object identifiers.
use pkcs.Base.{ℕ, [], ◌∷◌, Bool, List}
use pkcs.Subtle.{bytes_equal}

-- `asn1.ObjectIdentifier`
abbrev pub Oid : Type 0
Oid = List ℕ

-- `oid.Equal`
abbrev pub equal : Oid → Oid → Bool
equal = bytes_equal

abbrev pub digest_algorithm_sha1 : Oid
digest_algorithm_sha1 = 1 ∷ 3 ∷ 14 ∷ 3 ∷ 2 ∷ 26 ∷ []

abbrev pub digest_algorithm_sha256 : Oid
digest_algorithm_sha256 = 2 ∷ 16 ∷ 840 ∷ 1 ∷ 101 ∷ 3 ∷ 4 ∷ 2 ∷ 1 ∷ []

abbrev pub digest_algorithm_sha384 : Oid
digest_algorithm_sha384 = 2 ∷ 16 ∷ 840 ∷ 1 ∷ 101 ∷ 3 ∷ 4 ∷ 2 ∷ 2 ∷ []

abbrev pub digest_algorithm_sha512 : Oid
digest_algorithm_sha512 = 2 ∷ 16 ∷ 840 ∷ 1 ∷ 101 ∷ 3 ∷ 4 ∷ 2 ∷ 3 ∷ []

abbrev pub digest_algorithm_dsa : Oid
digest_algorithm_dsa = 1 ∷ 2 ∷ 840 ∷ 10040 ∷ 4 ∷ 1 ∷ []

abbrev pub digest_algorithm_dsa_sha1 : Oid
digest_algorithm_dsa_sha1 = 1 ∷ 2 ∷ 840 ∷ 10040 ∷ 4 ∷ 3 ∷ []

abbrev pub digest_algorithm_ecdsa_sha1 : Oid
digest_algorithm_ecdsa_sha1 = 1 ∷ 2 ∷ 840 ∷ 10045 ∷ 4 ∷ 1 ∷ []

abbrev pub digest_algorithm_ecdsa_sha256 : Oid
digest_algorithm_ecdsa_sha256 = 1 ∷ 2 ∷ 840 ∷ 10045 ∷ 4 ∷ 3 ∷ 2 ∷ []

abbrev pub digest_algorithm_ecdsa_sha384 : Oid
digest_algorithm_ecdsa_sha384 = 1 ∷ 2 ∷ 840 ∷ 10045 ∷ 4 ∷ 3 ∷ 3 ∷ []

abbrev pub digest_algorithm_ecdsa_sha512 : Oid
digest_algorithm_ecdsa_sha512 = 1 ∷ 2 ∷ 840 ∷ 10045 ∷ 4 ∷ 3 ∷ 4 ∷ []

abbrev pub public_key_algorithm_ec : Oid
public_key_algorithm_ec = 1 ∷ 2 ∷ 840 ∷ 10045 ∷ 2 ∷ 1 ∷ []

abbrev pub encryption_algorithm_rsa : Oid
encryption_algorithm_rsa = 1 ∷ 2 ∷ 840 ∷ 113549 ∷ 1 ∷ 1 ∷ 1 ∷ []

abbrev pub encryption_algorithm_rsa_sha1 : Oid
encryption_algorithm_rsa_sha1 = 1 ∷ 2 ∷ 840 ∷ 113549 ∷ 1 ∷ 1 ∷ 5 ∷ []

abbrev pub encryption_algorithm_rsa_sha256 : Oid
encryption_algorithm_rsa_sha256 = 1 ∷ 2 ∷ 840 ∷ 113549 ∷ 1 ∷ 1 ∷ 11 ∷ []

abbrev pub encryption_algorithm_rsa_sha384 : Oid
encryption_algorithm_rsa_sha384 = 1 ∷ 2 ∷ 840 ∷ 113549 ∷ 1 ∷ 1 ∷ 12 ∷ []

abbrev pub encryption_algorithm_rsa_sha512 : Oid
encryption_algorithm_rsa_sha512 = 1 ∷ 2 ∷ 840 ∷ 113549 ∷ 1 ∷ 1 ∷ 13 ∷ []

abbrev pub encryption_algorithm_rsa_pss : Oid
encryption_algorithm_rsa_pss = 1 ∷ 2 ∷ 840 ∷ 113549 ∷ 1 ∷ 1 ∷ 10 ∷ []

abbrev pub mask_generation_function_mgf1 : Oid
mask_generation_function_mgf1 = 1 ∷ 2 ∷ 840 ∷ 113549 ∷ 1 ∷ 1 ∷ 8 ∷ []

abbrev pub encryption_algorithm_ecdsa_p256 : Oid
encryption_algorithm_ecdsa_p256 = 1 ∷ 2 ∷ 840 ∷ 10045 ∷ 3 ∷ 1 ∷ 7 ∷ []

abbrev pub encryption_algorithm_ecdsa_p384 : Oid
encryption_algorithm_ecdsa_p384 = 1 ∷ 3 ∷ 132 ∷ 0 ∷ 34 ∷ []

abbrev pub encryption_algorithm_ecdsa_p521 : Oid
encryption_algorithm_ecdsa_p521 = 1 ∷ 3 ∷ 132 ∷ 0 ∷ 35 ∷ []

abbrev pub encryption_algorithm_eddsa25519 : Oid
encryption_algorithm_eddsa25519 = 1 ∷ 3 ∷ 101 ∷ 112 ∷ []

abbrev pub signature_algorithm_mldsa44 : Oid
signature_algorithm_mldsa44 = 2 ∷ 16 ∷ 840 ∷ 1 ∷ 101 ∷ 3 ∷ 4 ∷ 3 ∷ 17 ∷ []

abbrev pub signature_algorithm_mldsa65 : Oid
signature_algorithm_mldsa65 = 2 ∷ 16 ∷ 840 ∷ 1 ∷ 101 ∷ 3 ∷ 4 ∷ 3 ∷ 18 ∷ []

abbrev pub signature_algorithm_mldsa87 : Oid
signature_algorithm_mldsa87 = 2 ∷ 16 ∷ 840 ∷ 1 ∷ 101 ∷ 3 ∷ 4 ∷ 3 ∷ 19 ∷ []

abbrev pub oid_data : Oid
oid_data = 1 ∷ 2 ∷ 840 ∷ 113549 ∷ 1 ∷ 7 ∷ 1 ∷ []

abbrev pub encryption_algorithm_des_cbc : Oid
encryption_algorithm_des_cbc = 1 ∷ 3 ∷ 14 ∷ 3 ∷ 2 ∷ 7 ∷ []

abbrev pub encryption_algorithm_des_ede3_cbc : Oid
encryption_algorithm_des_ede3_cbc = 1 ∷ 2 ∷ 840 ∷ 113549 ∷ 3 ∷ 7 ∷ []

abbrev pub encryption_algorithm_aes256_cbc : Oid
encryption_algorithm_aes256_cbc = 2 ∷ 16 ∷ 840 ∷ 1 ∷ 101 ∷ 3 ∷ 4 ∷ 1 ∷ 42 ∷ []

abbrev pub encryption_algorithm_aes128_gcm : Oid
encryption_algorithm_aes128_gcm = 2 ∷ 16 ∷ 840 ∷ 1 ∷ 101 ∷ 3 ∷ 4 ∷ 1 ∷ 6 ∷ []

abbrev pub encryption_algorithm_aes128_cbc : Oid
encryption_algorithm_aes128_cbc = 2 ∷ 16 ∷ 840 ∷ 1 ∷ 101 ∷ 3 ∷ 4 ∷ 1 ∷ 2 ∷ []

abbrev pub encryption_algorithm_aes256_gcm : Oid
encryption_algorithm_aes256_gcm = 2 ∷ 16 ∷ 840 ∷ 1 ∷ 101 ∷ 3 ∷ 4 ∷ 1 ∷ 46 ∷ []

abbrev pub oid_signed_data : Oid
oid_signed_data = 1 ∷ 2 ∷ 840 ∷ 113549 ∷ 1 ∷ 7 ∷ 2 ∷ []

abbrev pub oid_enveloped_data : Oid
oid_enveloped_data = 1 ∷ 2 ∷ 840 ∷ 113549 ∷ 1 ∷ 7 ∷ 3 ∷ []

abbrev pub oid_encrypted_data : Oid
oid_encrypted_data = 1 ∷ 2 ∷ 840 ∷ 113549 ∷ 1 ∷ 7 ∷ 6 ∷ []

abbrev pub attribute_content_type : Oid
attribute_content_type = 1 ∷ 2 ∷ 840 ∷ 113549 ∷ 1 ∷ 9 ∷ 3 ∷ []

abbrev pub attribute_message_digest : Oid
attribute_message_digest = 1 ∷ 2 ∷ 840 ∷ 113549 ∷ 1 ∷ 9 ∷ 4 ∷ []

abbrev pub attribute_signing_time : Oid
attribute_signing_time = 1 ∷ 2 ∷ 840 ∷ 113549 ∷ 1 ∷ 9 ∷ 5 ∷ []
