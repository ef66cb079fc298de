-- ===== src/Content/Seal.antt =====
-- encrypt.go, `encryptAESGCM`.
use pkcs.Base.{
  ℕ, ◌==◌, if◌then◌else◌, Option, none, some, false, [], Bytes, length, Outcome, ok, panic, ◌>>=◌,
  value_or,
}
use pkcs.Algorithms.Oids
use pkcs.Algorithms.Oids.{Oid}
use pkcs.Content.Ciphers.{
  CipherKind, Gcm, Crypto, EncryptedContentInfo, ContentError, invalid_algorithm, random_failed,
  bad_key, bad_gcm_parameters, no_gcm,
}
use pkcs.Content.Encrypt.{
  EncryptionAlgorithm, aes128_gcm, aes256_gcm, marshal_encrypted_content, key_or_random,
}

-- `keyLen` and `algID`
abbrev pub gcm_choice : EncryptionAlgorithm → Option (ℕ × Oid)
gcm_choice aes128_gcm = some (16, Oids.encryption_algorithm_aes128_gcm)
gcm_choice aes256_gcm = some (32, Oids.encryption_algorithm_aes256_gcm)
gcm_choice _ = none

-- `gcm.Seal`, which panics on a nonce of another length than its own.
abbrev pub sealed : Gcm → Bytes → Bytes → Outcome ContentError Bytes
sealed gcm nonce content =
    if length nonce == gcm.nonce_size then ok (gcm.seal nonce content) else panic

-- `nonceSize`
abbrev pub nonce_size : ℕ
nonce_size = 12

module _ (crypto : Crypto) (rand_key rand_nonce : ℕ → Option Bytes) where
  unfoldable pub encrypt_aes_gcm :
      EncryptionAlgorithm
      → Bytes
      → Option Bytes
      → Outcome ContentError (Bytes × EncryptedContentInfo)
  encrypt_aes_gcm algorithm content given = do
    (key_len, alg_id) ← value_or (gcm_choice algorithm) invalid_algorithm
    key ← key_or_random crypto rand_key rand_nonce given key_len
    nonce ← value_or (rand_nonce nonce_size) random_failed
    block ← value_or (crypto.new_cipher CipherKind.aes key) bad_key
    gcm ← value_or block.new_gcm no_gcm
    ciphertext ← sealed gcm nonce content
    param_bytes ←
        value_or (crypto.marshal_gcm (record { nonce = nonce; icv_len = gcm.overhead }))
          bad_gcm_parameters
    ok (
      key,
      record {
        content_type = Oids.oid_data;
        content_encryption_algorithm = record {
          algorithm = alg_id;
          parameters = record {
            class = 0;
            tag = 16;
            is_compound = false;
            bytes = param_bytes;
            full_bytes = [];
          };
        };
        encrypted_content = marshal_encrypted_content crypto ciphertext;
      },
    )
