-- ===== src/Envelope/Psk.antt =====
-- encrypt.go `EncryptUsingPSK` and decrypt.go `DecryptUsingPSK`.
use pkcs.Base.{ℕ, Option, some, Bytes, Outcome, err, ◌>>=◌, value_or, with_error}
use pkcs.Algorithms.Oids
use pkcs.Content.Ciphers.{Crypto, EncryptedContentInfo, ContentError}
use pkcs.Content.Encrypt.{
  EncryptionAlgorithm, des_cbc, aes128_cbc, aes256_cbc, aes128_gcm, aes256_gcm, encrypt_des_cbc,
}
use pkcs.Content.Seal.{encrypt_aes_gcm}
use pkcs.Content.Decrypt.{decrypt}
use pkcs.Message.Pkcs7.{raw_signed, raw_enveloped, raw_encrypted, raw_nil, Pkcs7}
use pkcs.Parse.Wire.{Wire, content_info_of}

pub data EnvelopeError : Type 0 where
  psk_not_provided unsupported_encryption_algorithm not_encrypted_content not_marshalled :
      EnvelopeError
  bad_content : ContentError → EnvelopeError

module _ (crypto : Crypto) where
  module _ (rand_key rand_iv : ℕ → Option Bytes) where
    -- The switch on `ContentEncryptionAlgorithm`.
    unfoldable pub encrypt_content_using_psk :
        EncryptionAlgorithm → Bytes → Bytes → Outcome EnvelopeError (Bytes × EncryptedContentInfo)
    encrypt_content_using_psk des_cbc content key =
        with_error bad_content (encrypt_des_cbc crypto rand_key rand_iv content (some key))
    encrypt_content_using_psk aes128_gcm content key =
        with_error bad_content
          (encrypt_aes_gcm crypto rand_key rand_iv aes128_gcm content (some key))
    encrypt_content_using_psk aes256_gcm content key =
        with_error bad_content
          (encrypt_aes_gcm crypto rand_key rand_iv aes256_gcm content (some key))
    encrypt_content_using_psk aes128_cbc content key = err unsupported_encryption_algorithm
    encrypt_content_using_psk aes256_cbc content key = err unsupported_encryption_algorithm

    -- `algorithm` is `ContentEncryptionAlgorithm`, and `none` a key that is nil.
    unfoldable pub encrypt_using_psk :
        Wire → EncryptionAlgorithm → Bytes → Option Bytes → Outcome EnvelopeError Bytes
    encrypt_using_psk wire algorithm content given = do
      key ← value_or given psk_not_provided
      (_, eci) ← encrypt_content_using_psk algorithm content key
      inner ←
          value_or
            (wire.marshal_encrypted_data (record { version = 0; encrypted_content_info = eci }))
            not_marshalled
      value_or (wire.marshal_content_info (content_info_of Oids.oid_encrypted_data inner))
          not_marshalled

  unfoldable pub decrypt_using_psk : Pkcs7 → Bytes → Outcome EnvelopeError Bytes
  decrypt_using_psk p7 key = elim p7.raw [
    | raw_signed sd ↦ err not_encrypted_content
    | raw_enveloped ed ↦ err not_encrypted_content
    | raw_encrypted ed ↦ with_error bad_content (decrypt crypto ed.encrypted_content_info key)
    | raw_nil ↦ err not_encrypted_content
  ]
