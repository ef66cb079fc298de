-- ===== src/Attributes/Marshal.antt =====
-- pkcs7.go `attributes.Add`, `attributes.ForMarshalling`; sign.go `marshalAttributes`; verify.go
-- `unmarshalAttribute`.
use pkcs.Base.{
  true, if◌then◌else◌, Option, List, [], ◌∷◌, ◌++◌, map, Bytes, Outcome, ok, err, ◌>>=◌, value_or,
}
use pkcs.Algorithms.Oids.{Oid, equal}
use pkcs.Message.Types.{Attribute, EncodedAttribute}
use pkcs.Attributes.Encoding.{Encoding}

pub data AttributeError : Type 0 where
  value_not_encoded attribute_not_encoded set_not_encoded attribute_missing value_not_decoded :
      AttributeError

-- `sortableAttribute`
pub record SortableAttribute : Type 0 where
  pub sort_key : Bytes
  pub attribute : EncodedAttribute

-- `attrs.Add`, on the list of types and values.
abbrev pub add : List Attribute → Attribute → List Attribute
add attrs attr = attrs ++ attr ∷ []

-- A loop over a slice that fills another, and returns at the first error.
unfoldable pub traverse : {E A B : Type 0} → (A → Outcome E B) → List A → Outcome E (List B)
traverse f [] = ok []
traverse f (x ∷ xs) = do y ← f x; ys ← traverse f xs; ok (y ∷ ys)

module _ (enc : Encoding) where
  -- The body of the loop of `ForMarshalling`.
  unfoldable pub sortable : Attribute → Outcome AttributeError SortableAttribute
  sortable attr = do
    value ← value_or (enc.marshal_value attr.value) value_not_encoded
    let encoded_attr : EncodedAttribute = record {
      type = attr.type;
      value = record { class = 0; tag = 17; is_compound = true; bytes = value; full_bytes = [] };
    }
    encoded ← value_or (enc.marshal_attribute encoded_attr) attribute_not_encoded
    ok (record { sort_key = encoded; attribute = encoded_attr })

  -- `sort` stands for `sort.Sort` with `attributeSet.Less`.
  unfoldable pub for_marshalling :
      (List SortableAttribute → List SortableAttribute)
      → List Attribute
      → Outcome AttributeError (List EncodedAttribute)
  for_marshalling sort attrs = do
    sortables ← traverse sortable attrs
    ok (map (λ (s : SortableAttribute). s.attribute) (sort sortables))

  unfoldable pub marshal_attributes : List EncodedAttribute → Outcome AttributeError Bytes
  marshal_attributes attrs = do
    encodings ←
        traverse
          (λ (a : EncodedAttribute). value_or (enc.marshal_attribute a) attribute_not_encoded) attrs
    encoded ← value_or (enc.marshal_set encodings) set_not_encoded
    raw ← value_or (enc.unmarshal_raw encoded) value_not_decoded
    ok raw.bytes

-- `unmarshalAttribute`, with the decoder of the type of `out`.
unfoldable pub unmarshal_attribute :
    {A : Type 0} → (Bytes → Option A) → List EncodedAttribute → Oid → Outcome AttributeError A
unmarshal_attribute decode [] oid = err attribute_missing
unmarshal_attribute decode (attr ∷ attrs) oid =
    if equal attr.type oid
    then value_or (decode attr.value.bytes) value_not_decoded
    else unmarshal_attribute decode attrs oid
