-- ===== src/Content/Encrypt.antt =====
-- encrypt.go, `encryptDESCBC`, `encryptAESCBC` and `marshalEncryptedContent`.
use pkcs.Base.{
  ℕ, Option, none, some, true, false, [], Bytes, Outcome, ok, err, panic, stuck, ◌>>=◌, value_or,
}
use pkcs.Padding.Block.{PaddingError, pad}
use pkcs.Algorithms.Oids
use pkcs.Algorithms.Oids.{Oid}
use pkcs.Algorithms.Keys.{RawValue}
use pkcs.Content.Ciphers.{
  CipherKind, Crypto, EncryptedContentInfo, ContentError, invalid_algorithm, random_failed, bad_key,
  cannot_pad,
}

-- The values of `ContentEncryptionAlgorithm`.
pub data EncryptionAlgorithm : Type 0 where
  des_cbc aes128_cbc aes256_cbc aes128_gcm aes256_gcm : EncryptionAlgorithm

-- `pad`, where the caller returns its error.
abbrev pub padded : Outcome PaddingError Bytes → Outcome ContentError Bytes
padded (ok content) = ok content
padded (err e) = err cannot_pad
padded panic = panic
padded stuck = stuck

module _ (crypto : Crypto) where
  abbrev pub marshal_encrypted_content : Bytes → RawValue
  marshal_encrypted_content content = record {
    class = 2;
    tag = 0;
    is_compound = true;
    bytes = crypto.marshal_octets content;
    full_bytes = [];
  }

  module _ (rand_key rand_iv : ℕ → Option Bytes) where
    -- `key`, or random bytes where it is nil.
    abbrev pub key_or_random : Option Bytes → ℕ → Outcome ContentError Bytes
    key_or_random (some key) size = ok key
    key_or_random none size = value_or (rand_key size) random_failed

    -- What `encryptDESCBC` and `encryptAESCBC` do, for a cipher of their own.
    unfoldable pub encrypt_cbc :
        CipherKind
        → Oid
        → ℕ
        → ℕ
        → Bytes
        → Option Bytes
        → Outcome ContentError (Bytes × EncryptedContentInfo)
    encrypt_cbc kind oid key_size block_size content given = do
      key ← key_or_random given key_size
      iv ← value_or (rand_iv block_size) random_failed
      block ← value_or (crypto.new_cipher kind key) bad_key
      plaintext ← padded (pad content block.block_size)
      ok (
        key,
        record {
          content_type = Oids.oid_data;
          content_encryption_algorithm = record {
            algorithm = oid;
            parameters = record {
              class = 0;
              tag = 4;
              is_compound = false;
              bytes = iv;
              full_bytes = [];
            };
          };
          encrypted_content = marshal_encrypted_content (block.cbc_encrypt iv plaintext);
        },
      )

    unfoldable pub encrypt_des_cbc :
        Bytes → Option Bytes → Outcome ContentError (Bytes × EncryptedContentInfo)
    encrypt_des_cbc = encrypt_cbc CipherKind.des Oids.encryption_algorithm_des_cbc 8 8

    unfoldable pub encrypt_aes_cbc :
        EncryptionAlgorithm
        → Bytes
        → Option Bytes
        → Outcome ContentError (Bytes × EncryptedContentInfo)
    encrypt_aes_cbc aes128_cbc =
        encrypt_cbc CipherKind.aes Oids.encryption_algorithm_aes128_cbc 16 16
    encrypt_aes_cbc aes256_cbc =
        encrypt_cbc CipherKind.aes Oids.encryption_algorithm_aes256_cbc 32 16
    encrypt_aes_cbc _ = λ content key. err invalid_algorithm
