-- ===== src/Attributes/Lookup.antt =====
-- verify.go `unmarshalAttribute`, on the attributes that signing has sorted.
use mathlib.Core.Logic.Or
use mathlib.Core.List.{Mem, mem-cons, not-mem-nil}
use pkcs.Base.{
  ◌≡◌, refl, sym, Bool, true, false, ◌||◌, Option, some, List, [], ◌∷◌, Bytes, ok, value_or-eq-ok,
  All, Bool-cases, inl, inr, arith,
}
use pkcs.Algorithms.Oids.{Oid, equal}
use pkcs.Message.Types.{EncodedAttribute}
use pkcs.Attributes.Marshal.{unmarshal_attribute}

-- Some attribute has the type.
abbrev pub has_type : Oid → List EncodedAttribute → Bool
has_type oid [] = false
has_type oid (attr ∷ attrs) = equal attr.type oid || has_type oid attrs

pub Mem-has_type :
    (oid : Oid) (attrs : List EncodedAttribute) (attr : EncodedAttribute)
    → Mem attr attrs
    → equal attr.type oid ≡ true
    → has_type oid attrs ≡ true
Mem-has_type oid [] attr m e = absurd (not-mem-nil m)
Mem-has_type oid (a ∷ attrs) attr m e =
    Or.elim (hlevel) (mem-cons.0 m) (λ g. rw (sym g, e) refl)
      (λ k. ground (arith, Mem-has_type oid attrs attr k e))

-- Where the attributes of a type all hold a value, the one that is found holds it.
pub unmarshal_attribute_all :
    {A : Type 0} (decode : Bytes → Option A) (oid : Oid) (attrs : List EncodedAttribute) (a : A)
    → has_type oid attrs ≡ true
    → All (λ attr. equal attr.type oid ≡ true → decode attr.value.bytes ≡ some a) attrs
    → unmarshal_attribute decode attrs oid ≡ ok a
unfolding unmarshal_attribute
unmarshal_attribute_all decode oid [] a h all = cc
unmarshal_attribute_all decode oid (attr ∷ attrs) a h all =
    elim (Bool-cases (equal attr.type oid)) [
      | inl here ↦ rw (here, all.0 here) refl
      | inr elsewhere ↦
          rw elsewhere (unmarshal_attribute_all decode oid attrs a (rw elsewhere at h) all.1)
    ]

-- What holds of the values of all attributes of a type holds of the one that is found.
pub unmarshal_attribute_one :
    {A : Type 0} (P : A → Type 0) (decode : Bytes → Option A) (oid : Oid)
    (attrs : List EncodedAttribute) (a : A)
    → All
        (λ attr. equal attr.type oid ≡ true → (b : A) → decode attr.value.bytes ≡ some b → P b)
        attrs
    → unmarshal_attribute decode attrs oid ≡ ok a
    → P a
unfolding unmarshal_attribute
unmarshal_attribute_one P decode oid [] a all e = cc
unmarshal_attribute_one P decode oid (attr ∷ attrs) a all e =
    elim (Bool-cases (equal attr.type oid)) [
      | inl here ↦ all.0 here a (value_or-eq-ok _ _ (rw here at e))
      | inr elsewhere ↦ unmarshal_attribute_one P decode oid attrs a all.1 (rw elsewhere at e)
    ]
