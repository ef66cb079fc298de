-- ===== src/Parse/Wire.antt =====
-- Go's encoding/asn1 at the types of a message, and `x509.ParseCertificates`: parameters, with the
-- documented behaviour as laws.
use pkcs.Base.{◌≤◌, ◌<◌, ◌^◌, ◌≡◌, ◌⊎◌, true, Option, some, List, [], length, Bytes, All, IsByte}
use pkcs.Ber.Transcode.{Transcodes}
use pkcs.Algorithms.Oids
use pkcs.Algorithms.Oids.{Oid}
use pkcs.Algorithms.Keys.{RawValue}
use pkcs.Message.Types.{Certificate, ContentInfo, SignedContent}
use pkcs.Message.Pkcs7.{EnvelopedData, EncryptedData}

-- Decoding gives the value and the rest, where the program looks at the rest. `marshal_raw` and
-- `unmarshal_raw` are at asn1.RawValue.
pub record Wire : Type 0 where
  pub unmarshal_content_info : Bytes → Option (ContentInfo × Bytes)
  pub unmarshal_signed_data : Bytes → Option SignedContent
  pub unmarshal_enveloped_data : Bytes → Option EnvelopedData
  pub unmarshal_encrypted_data : Bytes → Option EncryptedData
  pub unmarshal_raw : Bytes → Option RawValue
  pub unmarshal_octets : Bytes → Option Bytes
  pub parse_certificates : Bytes → Option (List Certificate)
  pub marshal_content_info : ContentInfo → Option Bytes
  pub marshal_signed_data : SignedContent → Option Bytes
  pub marshal_enveloped_data : EnvelopedData → Option Bytes
  pub marshal_encrypted_data : EncryptedData → Option Bytes
  pub marshal_raw : RawValue → Option Bytes

-- The value `[0]` that wraps bytes.
abbrev pub wrapped : Bytes → RawValue
wrapped bytes = record { class = 2; tag = 0; is_compound = true; bytes = bytes; full_bytes = [] }

abbrev pub content_info_of : Oid → Bytes → ContentInfo
content_info_of oid bytes = record { content_type = oid; content = wrapped bytes }

-- Bytes that are DER, nested at most as deep as `ber2der` allows, and short enough for encoding/asn1,
-- which reads lengths below 2 ^ 31. It is asked of the message at hand: encoding/asn1 writes the bytes
-- of a raw value unchecked.
pub record IsDer (out : Bytes) : Type 0 where
  pub are_bytes : All IsByte out
  pub element : Transcodes out out
  pub short : length out < 2 ^ 31

-- Decoding gives back what was encoded, for contents that are not empty and encodings shorter than
-- 2 ^ 31 bytes: the wrapped bytes of a message of one of the types that the program writes, the bytes in
-- `[0]`, and the signed data around such bytes. A field is never longer than the whole.
pub record IsWire (wire : Wire) (no_signers : Bytes → SignedContent) : Type 0 where
  pub content_info_round :
      (oid : Oid) (inner out : Bytes)
      → (oid ≡ Oids.oid_signed_data) ⊎ (oid ≡ Oids.oid_encrypted_data)
      → wire.marshal_content_info (content_info_of oid inner) ≡ some out
      → 1 ≤ length inner
      → length out < 2 ^ 31
      → (info : ContentInfo) × (wire.unmarshal_content_info out ≡ some (info, []))
        × (info.content_type ≡ oid)
        × (info.content.bytes ≡ inner)
  pub content_info_longer :
      (oid : Oid) (inner out : Bytes)
      → wire.marshal_content_info (content_info_of oid inner) ≡ some out
      → length inner ≤ length out
  pub no_signers_round :
      (cert certs out : Bytes)
      → wire.marshal_raw (wrapped cert) ≡ some certs
      → wire.marshal_signed_data (no_signers certs) ≡ some out
      → length out < 2 ^ 31
      → wire.unmarshal_signed_data out ≡ some (no_signers certs)
  pub no_signers_longer :
      (cert certs out : Bytes)
      → wire.marshal_raw (wrapped cert) ≡ some certs
      → wire.marshal_signed_data (no_signers certs) ≡ some out
      → length certs ≤ length out
  pub raw_round :
      (inner out : Bytes)
      → wire.marshal_raw (wrapped inner) ≡ some out
      → length out < 2 ^ 31
      → (raw : RawValue) × (wire.unmarshal_raw out ≡ some raw) × (raw.bytes ≡ inner)
  pub raw_some : (inner out : Bytes) → wire.marshal_raw (wrapped inner) ≡ some out → 1 ≤ length out
