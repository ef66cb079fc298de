-- ===== src/Sign/Signed.antt =====
-- sign.go: what verification finds in the attributes that `AddSignerChain` signs.
use mathlib.Core.Logic.Or
use mathlib.Core.List.{Mem, mem-cons, mem-cons_self, mem-cons_of_mem, mem-map_of_mem, not-mem-nil}
use mathlib.Core.List.Perm
use native.Mathlib.Bridge.{le_prop}
use pkcs.Base.{
  ℕ, ◌≤◌, ◌<◌, ◌^◌, ◌≡◌, refl, sym, ap, ◌∙◌, subst, Bool, true, false, not, ◌||◌, ◌&&◌, some, List,
  [], ◌∷◌, ◌++◌, append_assoc, append-nil, length, Bytes, ok, All, All-append, All_mono, Bool-cases,
  inl, inr, >>=-eq-ok, ok_injective, value_or, value_or-eq-ok,
}
use pkcs.Subtle.{bytes_equal}
use pkcs.Algorithms.Oids
use pkcs.Algorithms.Oids.{Oid, equal}
use pkcs.Message.Types.{
  Certificate, Attribute, octets_value, time_value, oid_value, EncodedAttribute,
}
use pkcs.Attributes.Encoding.{Encoding, IsEncoding, whole_seconds}
use pkcs.Attributes.Marshal.{SortableAttribute, sortable, add, for_marshalling, unmarshal_attribute}
use pkcs.Attributes.Sorted.{IsSort}
use pkcs.Attributes.Laws.{
  Traverses, none_left, one_more, encoded_attributes, for_marshalling-Traverses,
}
use pkcs.Attributes.Lookup.{
  has_type, Mem-has_type, unmarshal_attribute_all, unmarshal_attribute_one,
}
use pkcs.Sign.Signer.{SignerInfoConfig, is_time, has_explicit_time, add_extra, signed_attributes}

abbrev pub IsValidAt : Certificate → ℕ → Type 0
IsValidAt ee t = (ee.not_before ≤ t) × (t ≤ ee.not_after)

-- A message digest holds the digest given, and a signing time a time at whose whole second the
-- certificate is valid.
abbrev pub IsFit : Bytes → Certificate → Attribute → Type 0
IsFit digest ee attr =
    (equal attr.type Oids.attribute_message_digest ≡ true → attr.value ≡ octets_value digest)
    × (equal attr.type Oids.attribute_signing_time ≡ true
        → (t : ℕ) × (attr.value ≡ time_value t) × IsValidAt ee (whole_seconds t))

add_extra-IsFit :
    (digest : Bytes) (ee : Certificate) (skip added : Bool) (attrs extra : List Attribute)
    → All (IsFit digest ee) attrs
    → All (IsFit digest ee) extra
    → All (IsFit digest ee) (add_extra skip added attrs extra)
unfolding add_extra
add_extra-IsFit digest ee skip added attrs [] h k = h
add_extra-IsFit digest ee skip added attrs (attr ∷ extra) h k =
    elim (Bool-cases (is_time attr && (skip || added))) [
      | inl left_out ↦
          rw left_out
            (add_extra-IsFit digest ee skip (added || (is_time attr && not skip)) attrs extra h k.1)
      | inr taken ↦ rw taken (
          add_extra-IsFit digest ee skip (added || (is_time attr && not skip)) (add attrs attr)
            extra (All-append _ attrs (attr ∷ []) h (k.0, tt)) k.1)
    ]

-- The loop only adds attributes.
add_extra-append :
    (skip added : Bool) (attrs extra : List Attribute)
    → (more : List Attribute) × (add_extra skip added attrs extra ≡ attrs ++ more)
unfolding add_extra
add_extra-append skip added attrs [] = ([], sym (append-nil attrs))
add_extra-append skip added attrs (attr ∷ extra) =
    elim (Bool-cases (is_time attr && (skip || added))) [
      | inl left_out ↦
          rw left_out (add_extra-append skip (added || (is_time attr && not skip)) attrs extra)
      | inr taken ↦
          let (more, e) =
            add_extra-append skip (added || (is_time attr && not skip)) (add attrs attr) extra in
          (attr ∷ more, rw taken (e ∙ append_assoc attrs (attr ∷ []) more))
    ]

-- The two attributes that are always signed.
abbrev required : Oid → Bytes → List Attribute
required content_type digest =
    record { type = Oids.attribute_content_type; value = oid_value content_type }
    ∷ record { type = Oids.attribute_message_digest; value = octets_value digest }
    ∷ []

required-IsFit :
    (content_type : Oid) (digest : Bytes) (ee : Certificate)
    → All (IsFit digest ee) (required content_type digest)
unfolding bytes_equal
required-IsFit content_type digest ee = (((λ e. cc), (λ e. cc)), (((λ e. refl), (λ e. cc)), tt))

signed_attributes-IsFit :
    (content_type : Oid) (digest : Bytes) (now : ℕ) (config : SignerInfoConfig) (ee : Certificate)
    → IsValidAt ee (whole_seconds now)
    → All (IsFit digest ee) config.extra_signed_attributes
    → All (IsFit digest ee) (signed_attributes content_type digest now config)
unfolding signed_attributes bytes_equal
signed_attributes-IsFit content_type digest now config ee valid h =
    elim (Bool-cases
      (not config.skip_signing_time && not (has_explicit_time config.extra_signed_attributes))) [
        | inl own ↦ rw own (
            add_extra-IsFit digest ee _ _ _ _
              (All-append (IsFit digest ee) (required content_type digest)
                (record { type = Oids.attribute_signing_time; value = time_value now } ∷ [])
                (required-IsFit content_type digest ee)
                (((λ e. cc), (λ e. (now, refl, valid))), tt))
              h)
        | inr given ↦
            rw given (add_extra-IsFit digest ee _ _ _ _ (required-IsFit content_type digest ee) h)
      ]

signed_attributes-append :
    (content_type : Oid) (digest : Bytes) (now : ℕ) (config : SignerInfoConfig)
    → (more : List Attribute) × (signed_attributes content_type digest now config
        ≡ required content_type digest ++ more)
unfolding signed_attributes
signed_attributes-append content_type digest now config =
    elim (Bool-cases
      (not config.skip_signing_time && not (has_explicit_time config.extra_signed_attributes))) [
        | inl own ↦
            let time : Attribute = record {
              type = Oids.attribute_signing_time;
              value = time_value now;
            } in
            let (more, e) =
              add_extra-append config.skip_signing_time false
                (add (required content_type digest) time) config.extra_signed_attributes in
            (time ∷ more, rw own e)
        | inr given ↦ rw given (
            add_extra-append config.skip_signing_time false (required content_type digest)
              config.extra_signed_attributes)
      ]

module _ (enc : Encoding) (laws : IsEncoding enc) (digest : Bytes) (short : length digest < 2 ^ 30)
    (ee : Certificate) where
  -- What is decoded of an encoded attribute.
  abbrev IsFound : EncodedAttribute → Type 0
  IsFound a =
      (equal a.type Oids.attribute_message_digest ≡ true
        → enc.unmarshal_octets a.value.bytes ≡ some digest)
      × (equal a.type Oids.attribute_signing_time ≡ true
          → (t : ℕ) → enc.unmarshal_time a.value.bytes ≡ some t
          → IsValidAt ee t)

  sortable-IsFound :
      (attr : Attribute) (s : SortableAttribute)
      → IsFit digest ee attr
      → sortable enc attr ≡ ok s
      → IsFound s.attribute
  unfolding sortable
  sortable-IsFound attr s fit e =
      let (value, h, g) = >>=-eq-ok (value_or (enc.marshal_value attr.value) _) _ e in
      let (encoded, k, l) = >>=-eq-ok (value_or (enc.marshal_attribute _) _) _ g in
      let m = value_or-eq-ok (enc.marshal_value attr.value) _ h in
      subst (λ (z : SortableAttribute). IsFound z.attribute) (ok_injective l)
        (
          (λ d. laws.octets_round digest value short (sym (ap enc.marshal_value (fit.0 d)) ∙ m)),
          (λ d t u.
              let (time, v, valid) = fit.1 d in
              let w = laws.time_round time value (sym (ap enc.marshal_value v) ∙ m) in
              let same : whole_seconds time ≡ t = cc in subst (IsValidAt ee) same valid),
        )

  Traverses-IsFound :
      {attrs : List Attribute} {ss : List SortableAttribute}
      → Traverses (sortable enc) attrs ss
      → All (IsFit digest ee) attrs
      → (s : SortableAttribute) → Mem s ss
      → IsFound s.attribute
  Traverses-IsFound none_left h s m = absurd (not-mem-nil m)
  Traverses-IsFound (one_more {x} {y} e t) h s m =
      Or.elim (hlevel (le_prop)) (mem-cons.0 m)
        (λ g.
          subst (λ (z : SortableAttribute). IsFound z.attribute) (sym g)
            (sortable-IsFound x y h.0 e))
        (λ k. Traverses-IsFound t h.1 s k)

  encoded_attributes-All :
      (ss : List SortableAttribute)
      → ((s : SortableAttribute) → Mem s ss → IsFound s.attribute)
      → All IsFound (encoded_attributes ss)
  encoded_attributes-All [] h = tt
  encoded_attributes-All (s ∷ ss) h =
      (h s mem-cons_self, encoded_attributes-All ss (λ z m. h z (mem-cons_of_mem s m)))

sortable-type :
    (enc : Encoding) (attr : Attribute) (s : SortableAttribute)
    → sortable enc attr ≡ ok s
    → s.attribute.type ≡ attr.type
unfolding sortable
sortable-type enc attr s e =
    let (value, h, g) = >>=-eq-ok (value_or (enc.marshal_value attr.value) _) _ e in
    let (encoded, k, l) = >>=-eq-ok (value_or (enc.marshal_attribute _) _) _ g in
    ap (λ (z : SortableAttribute). z.attribute.type) (sym (ok_injective l))

second_sortable :
    (enc : Encoding) {a b : Attribute} {more : List Attribute} {ss : List SortableAttribute}
    → Traverses (sortable enc) (a ∷ b ∷ more) ss
    → (s : SortableAttribute) × Mem s ss × (s.attribute.type ≡ b.type)
second_sortable enc {b = b} (one_more {y} h (one_more {y = z} k t)) =
    (z, mem-cons_of_mem y mem-cons_self, sortable-type enc b z k)

-- What verification reads of the signed attributes.
pub record IsReadBack (enc : Encoding) (digest : Bytes) (ee : Certificate)
    (final : List EncodedAttribute) : Type 0 where
  pub digest_is :
      unmarshal_attribute enc.unmarshal_octets final Oids.attribute_message_digest ≡ ok digest
  pub time_within :
      (t : ℕ)
      → unmarshal_attribute enc.unmarshal_time final Oids.attribute_signing_time ≡ ok t
      → IsValidAt ee t
  pub has_digest : has_type Oids.attribute_message_digest final ≡ true

pub for_marshalling-IsReadBack :
    (enc : Encoding) (laws : IsEncoding enc)
    (sort : List SortableAttribute → List SortableAttribute) (o : IsSort sort) (content_type : Oid)
    (digest : Bytes) (short : length digest < 2 ^ 30) (now : ℕ) (config : SignerInfoConfig)
    (ee : Certificate) (final : List EncodedAttribute)
    → IsValidAt ee (whole_seconds now)
    → All (IsFit digest ee) config.extra_signed_attributes
    → for_marshalling enc sort (signed_attributes content_type digest now config) ≡ ok final
    → IsReadBack enc digest ee final
unfolding bytes_equal
for_marshalling-IsReadBack enc laws sort o content_type digest short now config ee final valid fit
      e =
    let attrs = signed_attributes content_type digest now config in
    let (ss, t, k) = for_marshalling-Traverses enc sort o attrs e in
    let back = λ (s : SortableAttribute). (Perm.mem_iff {a = s} (o.permutes ss)) in
    let (more, split) = signed_attributes-append content_type digest now config in
    let (s, m, is) =
      second_sortable enc (subst (λ (l : List Attribute). Traverses (sortable enc) l ss) split t) in
    let all = encoded_attributes-All enc laws digest short ee (sort ss) (λ s m.
      Traverses-IsFound enc laws digest short ee t
        (signed_attributes-IsFit content_type digest now config ee valid fit) s ((back s).0 m)) in
    let has : has_type Oids.attribute_message_digest (encoded_attributes (sort ss)) ≡ true =
      Mem-has_type _ _ s.attribute
        (mem-map_of_mem (λ (z : SortableAttribute). z.attribute) ((back s).1 m))
        (ap (λ (o : Oid). equal o Oids.attribute_message_digest) is) in
    subst (IsReadBack enc digest ee) k (record {
      digest_is =
          unmarshal_attribute_all enc.unmarshal_octets _ _ digest has
            (All_mono (λ (a : EncodedAttribute) f. f.0) _ all);
      time_within = λ a.
          unmarshal_attribute_one (IsValidAt ee) enc.unmarshal_time _ _ a
            (All_mono (λ (a : EncodedAttribute) f. f.1) _ all);
      has_digest = has;
    })
