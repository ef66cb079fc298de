-- ===== src/Message/Types.antt =====
-- pkcs7.go and sign.go: the structures of a signed message.
use pkcs.Base.{ℕ, Bytes, List}
use pkcs.Algorithms.Oids.{Oid}
use pkcs.Algorithms.Keys.{RawValue, AlgorithmIdentifier}
use pkcs.Algorithms.Accept.{ℤ}

-- The fields of `x509.Certificate` that the program reads. A time is its number of nanoseconds from
-- Go's zero time on.
pub record Certificate : Type 0 where
  pub raw : Bytes
  pub raw_issuer : Bytes
  pub raw_subject : Bytes
  pub serial_number : ℤ
  pub not_before : ℕ
  pub not_after : ℕ
  pub subject_key_id : Bytes

-- `issuerAndSerial`
pub record IssuerAndSerial : Type 0 where
  pub issuer_name : RawValue
  pub serial_number : ℤ

-- `attribute`, encoded.
pub record EncodedAttribute : Type 0 where
  pub type : Oid
  pub value : RawValue

-- The values of an attribute that the program makes itself, and those of its callers. A time is in
-- nanoseconds, in UTC.
pub data AttributeValue : Type 0 where
  oid_value : Oid → AttributeValue
  octets_value : Bytes → AttributeValue
  time_value : ℕ → AttributeValue
  other_value : Bytes → AttributeValue

-- `Attribute`
pub record Attribute : Type 0 where
  pub type : Oid
  pub value : AttributeValue

-- `contentInfo`
pub record ContentInfo : Type 0 where
  pub content_type : Oid
  pub content : RawValue

-- `signerInfo`
pub record SignerInfo : Type 0 where
  pub version : ℕ
  pub issuer_and_serial_number : IssuerAndSerial
  pub digest_algorithm : AlgorithmIdentifier
  pub authenticated_attributes : List EncodedAttribute
  pub digest_encryption_algorithm : AlgorithmIdentifier
  pub encrypted_digest : Bytes
  pub unauthenticated_attributes : List EncodedAttribute

-- `signedData`, with `rawCertificates` and each `pkix.CertificateList` by its bytes.
pub record SignedContent : Type 0 where
  pub version : ℕ
  pub digest_algorithm_identifiers : List AlgorithmIdentifier
  pub content_info : ContentInfo
  pub certificates : Bytes
  pub crls : List Bytes
  pub signer_infos : List SignerInfo
