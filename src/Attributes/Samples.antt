-- ===== src/Attributes/Samples.antt =====
-- A small encoding of attributes, which decodes what it encodes.
use pkcs.Base.{ℕ, ◌≡◌, refl, subst, true, Option, none, some, List, [], ◌∷◌, ◌++◌, Bytes}
use pkcs.Message.Types.{AttributeValue, oid_value, octets_value, time_value, other_value}
use pkcs.Attributes.Encoding.{Encoding, IsEncoding, whole_seconds}

abbrev concat : List Bytes → Bytes
concat [] = []
concat (bs ∷ rest) = bs ++ concat rest

-- A tag and the value.
abbrev tagged : AttributeValue → Bytes
tagged (oid_value oid) = 6 ∷ oid
tagged (octets_value bytes) = 4 ∷ bytes
tagged (time_value time) = 23 ∷ whole_seconds time ∷ []
tagged (other_value bytes) = bytes

abbrev untagged_octets : Bytes → Option Bytes
untagged_octets [] = none
untagged_octets (tag ∷ bytes) = some bytes

abbrev untagged_time : Bytes → Option ℕ
untagged_time (tag ∷ time ∷ []) = some time
untagged_time _ = none

abbrev pub small_encoding : Encoding
small_encoding = record {
  marshal_value = λ v. some (tagged v);
  marshal_attribute = λ a. some (a.type ++ a.value.bytes);
  marshal_set = λ encodings. some (concat encodings);
  unmarshal_raw = λ bytes.
      some (record { class = 0; tag = 17; is_compound = true; bytes = bytes; full_bytes = [] });
  unmarshal_octets = untagged_octets;
  unmarshal_time = untagged_time;
}

pub small_encoding-IsEncoding : IsEncoding small_encoding
small_encoding-IsEncoding = record {
  octets_round = λ content encoded _ e.
      let same : 4 ∷ content ≡ encoded = cc in
      subst (λ bs. untagged_octets bs ≡ some content) same refl;
  time_round = λ time encoded e.
      let same : 23 ∷ whole_seconds time ∷ [] ≡ encoded = cc in
      subst (λ bs. untagged_time bs ≡ some (whole_seconds time)) same refl;
}
