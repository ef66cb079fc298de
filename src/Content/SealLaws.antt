-- ===== src/Content/SealLaws.antt =====
-- encrypt.go and decrypt.go: decryption opens what `encryptAESGCM` sealed.
use pkcs.Base.{ℕ, ◌≡◌, refl, ==_refl, Option, some, Bytes, length, ok, ◌>>=◌}
use pkcs.Subtle.{bytes_equal}
use pkcs.Content.Ciphers.{CipherKind, Gcm, Block, Crypto, IsDecoder, IsGcm, IsGcmDecoder}
use pkcs.Content.Encrypt.{EncryptionAlgorithm, aes128_gcm, aes256_gcm, key_or_random}
use pkcs.Content.Decrypt.{cipher_kind, decrypt_gcm, decrypt}
use pkcs.Content.Laws.{cyphertext_of-marshal_encrypted_content}
use pkcs.Content.Seal.{encrypt_aes_gcm}

-- What `encryptAESGCM` chooses for an algorithm: the size of a random key.
pub data AesGcm : EncryptionAlgorithm → ℕ → Type 0 where
  aes_gcm128 : AesGcm aes128_gcm 16
  aes_gcm256 : AesGcm aes256_gcm 32

module _ (crypto : Crypto) (d : IsDecoder crypto) (g : IsGcmDecoder crypto) where
  decrypt_gcm-seal :
      (block : Block) (gcm : Gcm) (nonce content params : Bytes)
      → block.new_gcm ≡ some gcm
      → IsGcm gcm
      → length nonce ≡ 12
      → crypto.marshal_gcm (record { nonce = nonce; icv_len = gcm.overhead }) ≡ some params
      → decrypt_gcm crypto block params (gcm.seal nonce content) ≡ ok content
  unfolding decrypt_gcm
  decrypt_gcm-seal block gcm nonce content params made is sized encoded =
      rw
        (
          g.unmarshal_marshal _ params encoded,
          made,
          sized,
          is.nonce_is,
          ==_refl gcm.overhead,
          is.open_seal nonce content sized,
        )
        refl

  -- With AES in GCM mode, for a key of the caller or a random one of 16 or of 32 bytes: where the key
  -- makes a cipher whose GCM opens what it seals, the random bytes of the nonce are there, and its
  -- parameters are encoded, what `encryptAESGCM` returns is decrypted to the content with the key that
  -- it returns.
  pub decrypt-encrypt_aes_gcm :
      (rand_key rand_nonce : ℕ → Option Bytes) (given : Option Bytes)
      (key nonce content params : Bytes) (block : Block) (gcm : Gcm)
      (algorithm : EncryptionAlgorithm) (key_size : ℕ)
      → AesGcm algorithm key_size
      → key_or_random crypto rand_key rand_nonce given key_size ≡ ok key
      → rand_nonce 12 ≡ some nonce
      → length nonce ≡ 12
      → crypto.new_cipher CipherKind.aes key ≡ some block
      → block.new_gcm ≡ some gcm
      → IsGcm gcm
      → crypto.marshal_gcm (record { nonce = nonce; icv_len = gcm.overhead }) ≡ some params
      → (encrypt_aes_gcm crypto rand_key rand_nonce algorithm content given >>= λ r.
          decrypt crypto r.1 r.0)
        ≡ ok content
  unfolding encrypt_aes_gcm decrypt cipher_kind bytes_equal
  decrypt-encrypt_aes_gcm rand_key rand_nonce given key nonce content params block gcm algorithm
        key_size aes_gcm128 keyed random sized cipher made is encoded =
      rw
        (
          keyed,
          random,
          cipher,
          made,
          sized,
          is.nonce_is,
          encoded,
          cyphertext_of-marshal_encrypted_content crypto d (gcm.seal nonce content),
          cipher,
        )
        (decrypt_gcm-seal block gcm nonce content params made is sized encoded)
  decrypt-encrypt_aes_gcm rand_key rand_nonce given key nonce content params block gcm algorithm
        key_size aes_gcm256 keyed random sized cipher made is encoded =
      rw
        (
          keyed,
          random,
          cipher,
          made,
          sized,
          is.nonce_is,
          encoded,
          cyphertext_of-marshal_encrypted_content crypto d (gcm.seal nonce content),
          cipher,
        )
        (decrypt_gcm-seal block gcm nonce content params made is sized encoded)
