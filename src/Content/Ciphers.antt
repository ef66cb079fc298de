-- ===== src/Content/Ciphers.antt =====
-- Go's crypto/des, crypto/aes, crypto/cipher and the use of encoding/asn1 in encrypt.go and
-- decrypt.go: parameters, with the documented behaviour as laws.
use pkcs.Base.{ℕ, ◌%◌, ◌≡◌, Option, none, some, [], length, Bytes}
use pkcs.Algorithms.Oids.{Oid}
use pkcs.Algorithms.Keys.{AlgorithmIdentifier, RawValue}

pub data CipherKind : Type 0 where
  des triple_des aes : CipherKind

-- `cipher.AEAD`
pub record Gcm : Type 0 where
  pub nonce_size : ℕ
  pub overhead : ℕ
  pub seal : Bytes → Bytes → Bytes
  pub open_sealed : Bytes → Bytes → Option Bytes

-- `cipher.Block`, with what `NewCBCEncrypter`, `NewCBCDecrypter` and `NewGCM` make of it.
pub record Block : Type 0 where
  pub block_size : ℕ
  pub cbc_encrypt : Bytes → Bytes → Bytes
  pub cbc_decrypt : Bytes → Bytes → Bytes
  pub new_gcm : Option Gcm

-- `aesGCMParameters`
pub record GcmParameters : Type 0 where
  pub nonce : Bytes
  pub icv_len : ℕ

pub record Crypto : Type 0 where
  pub new_cipher : CipherKind → Bytes → Option Block
  pub marshal_octets : Bytes → Bytes
  pub unmarshal_octets : Bytes → Option (Bytes × Bytes)
  pub marshal_gcm : GcmParameters → Option Bytes
  pub unmarshal_gcm : Bytes → Option GcmParameters

-- The block size of a cipher, and CBC on whole blocks: it keeps the length, and decryption with the
-- same initial vector gives the blocks back.
pub record IsCbc (block : Block) (size : ℕ) : Type 0 where
  pub size_is : block.block_size ≡ size
  pub cbc_length :
      (iv content : Bytes)
      → length iv ≡ size
      → length content % size ≡ 0
      → length (block.cbc_encrypt iv content) ≡ length content
  pub cbc_round :
      (iv content : Bytes)
      → length iv ≡ size
      → length content % size ≡ 0
      → block.cbc_decrypt iv (block.cbc_encrypt iv content) ≡ content

-- GCM with nonces of 12 bytes: what is sealed is opened with the same nonce.
pub record IsGcm (gcm : Gcm) : Type 0 where
  pub nonce_is : gcm.nonce_size ≡ 12
  pub open_seal :
      (nonce content : Bytes)
      → length nonce ≡ 12
      → gcm.open_sealed nonce (gcm.seal nonce content) ≡ some content

-- The parameters of GCM are decoded from their encoding.
pub record IsGcmDecoder (crypto : Crypto) : Type 0 where
  pub unmarshal_marshal :
      (params : GcmParameters) (bytes : Bytes)
      → crypto.marshal_gcm params ≡ some bytes
      → crypto.unmarshal_gcm bytes ≡ some params

-- An octet string is decoded from its encoding, and there is none in no bytes.
pub record IsDecoder (crypto : Crypto) : Type 0 where
  pub unmarshal_marshal :
      (content : Bytes)
      → crypto.unmarshal_octets (crypto.marshal_octets content) ≡ some (content, [])
  pub unmarshal_nil : crypto.unmarshal_octets [] ≡ none

-- `encryptedContentInfo`
pub record EncryptedContentInfo : Type 0 where
  pub content_type : Oid
  pub content_encryption_algorithm : AlgorithmIdentifier
  pub encrypted_content : RawValue

pub data ContentError : Type 0 where
  invalid_algorithm random_failed bad_key cannot_pad unsupported_algorithm : ContentError
  bad_gcm_parameters no_gcm authentication malformed_parameters invalid_padding : ContentError
