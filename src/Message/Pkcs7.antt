-- ===== src/Message/Pkcs7.antt =====
-- pkcs7.go and encrypt.go: a parsed message.
use pkcs.Base.{ℕ, List, Bytes}
use pkcs.Algorithms.Keys.{RawValue}
use pkcs.Content.Ciphers.{EncryptedContentInfo}
use pkcs.Message.Types.{Certificate, SignerInfo, SignedContent}

-- `envelopedData`
pub record EnvelopedData : Type 0 where
  pub version : ℕ
  pub recipient_infos : List RawValue
  pub encrypted_content_info : EncryptedContentInfo

-- `encryptedData`
pub record EncryptedData : Type 0 where
  pub version : ℕ
  pub encrypted_content_info : EncryptedContentInfo

-- `PKCS7.raw`, by its dynamic type.
pub data Raw : Type 0 where
  raw_signed : SignedContent → Raw
  raw_enveloped : EnvelopedData → Raw
  raw_encrypted : EncryptedData → Raw
  raw_nil : Raw

-- `PKCS7`
pub record Pkcs7 : Type 0 where
  pub content : Bytes
  pub certificates : List Certificate
  pub crls : List Bytes
  pub signers : List SignerInfo
  pub raw : Raw
