-- ===== src/Attributes/Runs.antt =====
-- Runs of the attribute functions of pkcs7.go and sign.go at concrete inputs.
use mathlib.Core.List.{Permᴰ}
use pkcs.Base.{◌≡◌, refl, [], ◌∷◌, Bytes, ok, ◌>>=◌}
use pkcs.Message.Types.{Attribute, octets_value, time_value}
use pkcs.Attributes.Order.{less}
use pkcs.Attributes.Marshal.{traverse, sortable, for_marshalling, marshal_attributes}
use pkcs.Attributes.Laws.{marshal_attributes-perm}
use pkcs.Attributes.Insertion.{insertion_sort, insertion_sort-IsSort}
use pkcs.Attributes.Samples.{small_encoding}

abbrev digest_attribute : Attribute
digest_attribute = record { type = 1 ∷ []; value = octets_value (9 ∷ []) }

abbrev time_attribute : Attribute
time_attribute = record { type = 2 ∷ []; value = time_value 5000000001 }

abbrev both_encoded : Bytes
both_encoded = 1 ∷ 4 ∷ 9 ∷ 2 ∷ 23 ∷ 5000000000 ∷ []

encodes_both :
    (for_marshalling small_encoding insertion_sort (time_attribute ∷ digest_attribute ∷ [])
      >>= marshal_attributes small_encoding)
    ≡ ok both_encoded
unfolding for_marshalling marshal_attributes traverse sortable less
encodes_both = refl

marshal_attributes-perm_example :
    (for_marshalling small_encoding insertion_sort (digest_attribute ∷ time_attribute ∷ [])
      >>= marshal_attributes small_encoding)
    ≡ ok both_encoded
marshal_attributes-perm_example =
    marshal_attributes-perm small_encoding insertion_sort insertion_sort-IsSort
      (time_attribute ∷ digest_attribute ∷ []) (digest_attribute ∷ time_attribute ∷ []) both_encoded
      (Permᴰ.swap refl refl) encodes_both
