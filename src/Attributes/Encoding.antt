-- ===== src/Attributes/Encoding.antt =====
-- Go's encoding/asn1 at the types of an attribute: parameters, with the documented behaviour as laws.
use pkcs.Base.{ℕ, ◌<◌, ◌^◌, length, ◌*◌, ◌/◌, ◌≡◌, Option, some, List, Bytes}
use pkcs.Algorithms.Keys.{RawValue}
use pkcs.Message.Types.{AttributeValue, octets_value, time_value, EncodedAttribute}

pub record Encoding : Type 0 where
  pub marshal_value : AttributeValue → Option Bytes
  pub marshal_attribute : EncodedAttribute → Option Bytes
  -- A SET OF the encodings given, as the only field of a struct.
  pub marshal_set : List Bytes → Option Bytes
  pub unmarshal_raw : Bytes → Option RawValue
  pub unmarshal_octets : Bytes → Option Bytes
  pub unmarshal_time : Bytes → Option ℕ

-- The whole seconds of a time in nanoseconds: UTCTime and GeneralizedTime hold no fractions.
abbrev pub whole_seconds : ℕ → ℕ
whole_seconds time = time / 1000000000 * 1000000000

-- An octet string below 2 ^ 30 bytes is decoded as it was, and a time up to its whole seconds.
pub record IsEncoding (enc : Encoding) : Type 0 where
  pub octets_round :
      (content encoded : Bytes)
      → length content < 2 ^ 30
      → enc.marshal_value (octets_value content) ≡ some encoded
      → enc.unmarshal_octets encoded ≡ some content
  pub time_round :
      (time : ℕ) (encoded : Bytes)
      → enc.marshal_value (time_value time) ≡ some encoded
      → enc.unmarshal_time encoded ≡ some (whole_seconds time)
