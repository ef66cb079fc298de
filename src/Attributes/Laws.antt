-- ===== src/Attributes/Laws.antt =====
-- pkcs7.go and sign.go: the encoding of the attributes does not depend on the order they are added in.
use mathlib.Core.Logic.Or
use mathlib.Core.List.{mem-cons, Mem, Perm, Permᴰ, mem-cons_self, mem-cons_of_mem, not-mem-nil}
use mathlib.Core.List.Perm
use pkcs.Base.{
  ◌≡◌, refl, sym, ap, ◌∙◌, subst, some, List, [], ◌∷◌, map, Bytes, Outcome, ok, ◌>>=◌, value_or,
  >>=-eq-ok, ok_injective, value_or-eq-ok,
}
use pkcs.Message.Types.{Attribute, EncodedAttribute}
use pkcs.Attributes.Encoding.{Encoding}
use pkcs.Attributes.Marshal.{
  AttributeError, attribute_not_encoded, SortableAttribute, traverse, sortable, for_marshalling,
  marshal_attributes,
}
use pkcs.Attributes.Sorted.{IsSort, IsSorted-unique, keys}

-- Each element with what the call made of it.
pub data Traverses {E A B : Type 0} (f : A → Outcome E B) : List A → List B → Type 0 where
  none_left : Traverses f [] []
  one_more :
      {x : A} {y : B} {xs : List A} {ys : List B}
      → f x ≡ ok y
      → Traverses f xs ys
      → Traverses f (x ∷ xs) (y ∷ ys)

module _ {E A B : Type 0} (f : A → Outcome E B) where
  pub traverse-Traverses : (xs : List A) {ys : List B} → traverse f xs ≡ ok ys → Traverses f xs ys
  unfolding traverse
  traverse-Traverses [] e = subst (Traverses f []) (ok_injective e) none_left
  traverse-Traverses (x ∷ xs) e =
      let (y, h, g) = >>=-eq-ok (f x) _ e in
      let (rest, k, l) = >>=-eq-ok (traverse f xs) _ g in
      subst (Traverses f (x ∷ xs)) (ok_injective l) (one_more h (traverse-Traverses xs k))

  pub Traverses-traverse : {xs : List A} {ys : List B} → Traverses f xs ys → traverse f xs ≡ ok ys
  unfolding traverse
  Traverses-traverse none_left = refl
  Traverses-traverse (one_more h t) = rw (h, Traverses-traverse t) refl

  -- Permuted elements give permuted results.
  pub Traverses-perm :
      {xs xs' : List A} {ys : List B}
      → Permᴰ xs xs'
      → Traverses f xs ys
      → (ys' : List B) × Traverses f xs' ys' × Perm ys ys'
  Traverses-perm Permᴰ.nil none_left = ([], none_left, Perm.refl [])
  Traverses-perm (Permᴰ.cons e p) (one_more {y} h t) =
      let (rest, u, q) = Traverses-perm p t in
      (y ∷ rest, one_more (ap f (sym e) ∙ h) u, Perm.cons y q)
  Traverses-perm (Permᴰ.swap e g) (one_more {y} h (one_more {y = z} {ys} k t)) =
      (z ∷ y ∷ ys, one_more (ap f (sym g) ∙ k) (one_more (ap f (sym e) ∙ h) t), Perm.swap z y ys)
  Traverses-perm (Permᴰ.trans p q) t =
      let (middle, u, r) = Traverses-perm p t in
      let (last, v, s) = Traverses-perm q u in (last, v, Perm.trans r s)

-- The attributes in the order in which they are encoded.
abbrev pub encoded_attributes : List SortableAttribute → List EncodedAttribute
encoded_attributes = map (λ (s : SortableAttribute). s.attribute)

module _ (enc : Encoding) where
  -- The key of an attribute is its encoding.
  abbrev Keyed : SortableAttribute → Type 0
  Keyed s = enc.marshal_attribute s.attribute ≡ some s.sort_key

  sortable-Keyed : (attr : Attribute) (s : SortableAttribute) → sortable enc attr ≡ ok s → Keyed s
  unfolding sortable
  sortable-Keyed attr s e =
      let (value, h, g) = >>=-eq-ok (value_or (enc.marshal_value attr.value) _) _ e in
      let (encoded, k, l) = >>=-eq-ok (value_or (enc.marshal_attribute _) _) _ g in
      subst Keyed (ok_injective l) (value_or-eq-ok (enc.marshal_attribute _) _ k)

  Traverses-Keyed :
      {attrs : List Attribute} {ss : List SortableAttribute}
      → Traverses (sortable enc) attrs ss
      → (s : SortableAttribute) → Mem s ss
      → Keyed s
  Traverses-Keyed none_left s m = absurd (not-mem-nil m)
  Traverses-Keyed (one_more {x} {y} h t) s m =
      Or.elim (hlevel) (mem-cons.0 m) (λ e. subst Keyed (sym e) (sortable-Keyed x y h))
        (λ k. Traverses-Keyed t s k)

  traverse-keys :
      (ss : List SortableAttribute)
      → ((s : SortableAttribute) → Mem s ss → Keyed s)
      → traverse
          (λ (a : EncodedAttribute). value_or (enc.marshal_attribute a) attribute_not_encoded)
          (encoded_attributes ss)
        ≡ ok (keys ss)
  unfolding traverse
  traverse-keys [] h = refl
  traverse-keys (s ∷ ss) h =
      rw (h s mem-cons_self, traverse-keys ss (λ z m. h z (mem-cons_of_mem s m))) refl

  -- The end of `marshal_attributes`, on the encodings of the attributes.
  abbrev wrapped : List Bytes → Outcome AttributeError Bytes
  wrapped encodings = do
    encoded ← value_or (enc.marshal_set encodings) AttributeError.set_not_encoded
    raw ← value_or (enc.unmarshal_raw encoded) AttributeError.value_not_decoded
    ok raw.bytes

  module _ (sort : List SortableAttribute → List SortableAttribute) (o : IsSort sort) where
    -- The bytes that are signed, made of the sorted keys alone.
    marshal_attributes-keys :
        {attrs : List Attribute} {ss : List SortableAttribute}
        → Traverses (sortable enc) attrs ss
        → marshal_attributes enc (encoded_attributes (sort ss)) ≡ wrapped (keys (sort ss))
    unfolding marshal_attributes
    marshal_attributes-keys {ss} t =
        rw
          (traverse-keys (sort ss)
            (λ s m. Traverses-Keyed t s ((Perm.mem_iff (o.permutes ss)).0 m)))
          refl

    pub for_marshalling-Traverses :
        (attrs : List Attribute) {final : List EncodedAttribute}
        → for_marshalling enc sort attrs ≡ ok final
        → (ss : List SortableAttribute) × Traverses (sortable enc) attrs ss
          × (encoded_attributes (sort ss) ≡ final)
    unfolding for_marshalling
    for_marshalling-Traverses attrs e =
        let (ss, h, g) = >>=-eq-ok (traverse (sortable enc) attrs) _ e in
        (ss, traverse-Traverses (sortable enc) attrs h, ok_injective g)

    pub for_marshalling_run :
        {attrs : List Attribute} {ss : List SortableAttribute}
        → Traverses (sortable enc) attrs ss
        → for_marshalling enc sort attrs ≡ ok (encoded_attributes (sort ss))
    unfolding for_marshalling
    for_marshalling_run t = rw (Traverses-traverse (sortable enc) t) refl

    sorted_keys : {ss ss' : List SortableAttribute} → Perm ss ss' → keys (sort ss) ≡ keys (sort ss')
    sorted_keys {ss} {ss'} p =
        IsSorted-unique (keys (sort ss)) (keys (sort ss'))
          (Perm.map (λ (s : SortableAttribute). s.sort_key)
            (Perm.trans (o.permutes ss) (Perm.trans p (Perm.symm (o.permutes ss')))))
          (o.sorts ss) (o.sorts ss')

    -- The bytes that are signed do not depend on the order in which the attributes are added, however
    -- the sorting treats attributes with one encoding: where encoding the attributes gives some bytes,
    -- encoding them in any other order gives the same bytes.
    pub marshal_attributes-perm :
        (attrs attrs' : List Attribute) (encoded : Bytes)
        → Permᴰ attrs attrs'
        → (for_marshalling enc sort attrs >>= marshal_attributes enc) ≡ ok encoded
        → (for_marshalling enc sort attrs' >>= marshal_attributes enc) ≡ ok encoded
    marshal_attributes-perm attrs attrs' encoded p e =
        let (final, h, g) = >>=-eq-ok (for_marshalling enc sort attrs) (marshal_attributes enc) e in
        let (ss, t, k) = for_marshalling-Traverses attrs h in
        let (ss', t', q) = Traverses-perm (sortable enc) p t in
        let same = sorted_keys q in
        ap (λ (r : Outcome AttributeError (List EncodedAttribute)). r >>= marshal_attributes enc)
          (for_marshalling_run t')
        ∙ marshal_attributes-keys t'
        ∙ ap wrapped (sym same)
        ∙ sym (marshal_attributes-keys t)
        ∙ ap (marshal_attributes enc) k
        ∙ g
