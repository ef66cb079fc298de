-- ===== src/Ber/Canonical.antt =====
-- What `EncodeTo` writes for an object that was read: an encoding of the same object, in definite
-- forms only, at most three times as long as what was read.
use pkcs.Base.{
  ℕ, ◌+◌, ◌*◌, ◌^◌, ◌≤◌, ◌<◌, ◌≡◌, refl, sym, ap, ◌∙◌, [], ◌∷◌, ◌++◌, append_assoc, append-nil,
}
use pkcs.Base.{Bool, false, length, Bytes, arith, lengths, length-append_bytes}
use pkcs.Ber.Encode.{
  Object, Objects, primitive, structured, no_objects, object, encode_to, encode_all, encode_length,
}
use pkcs.Ber.Grammar.{
  Encodes, EncodesAll, primitive_form, definite_form, indefinite_form, short, long, none_left,
  one_more, end_of_contents, LengthOf,
}
use pkcs.Ber.LengthOctets.{Encoded, encoded, encode_length-append, LengthOf-length_le}
use pkcs.Ber.Loop.{IsTag-length, LengthOf-length}
use pkcs.Ber.Cursor.{length-parts}

abbrev pub der : Object → Bytes
der obj = encode_to obj []

abbrev pub der_all : Objects → Bytes
der_all objs = encode_all objs []

-- The tag and the length that come before the content.
encode_head : (tag out : Bytes) (n : ℕ) → encode_length (out ++ tag) n ≡ out ++ encode_length tag n
encode_head tag out n =
    encode_length-append (out ++ tag) n
    ∙ append_assoc out tag (encode_length [] n)
    ∙ ap (λ (t : Bytes). out ++ t) (sym (encode_length-append tag n))

-- What is in the buffer stays there.
mutual
  unfolding encode_to

  pub encode_to-append : (obj : Object) (out : Bytes) → encode_to obj out ≡ out ++ der obj
  encode_to-append (primitive tag n content) out =
      ap (λ (t : Bytes). t ++ content) (encode_head tag out n)
      ∙ append_assoc out (encode_length tag n) content
  encode_to-append (structured tag objs) out =
      ap (λ (t : Bytes). t ++ der_all objs) (encode_head tag out (length (der_all objs)))
      ∙ append_assoc out (encode_length tag (length (der_all objs))) (der_all objs)

  pub encode_all-append : (objs : Objects) (out : Bytes) → encode_all objs out ≡ out ++ der_all objs
  encode_all-append no_objects out = sym (append-nil out)
  encode_all-append (object obj objs) out =
      encode_all-append objs (encode_to obj out)
      ∙ ap (λ (t : Bytes). t ++ der_all objs) (encode_to-append obj out)
      ∙ append_assoc out (der obj) (der_all objs)
      ∙ ap (λ (t : Bytes). out ++ t) (sym (encode_all-append objs (der obj)))

pub der_primitive :
    (tag content : Bytes) (n : ℕ) (e : Encoded n)
    → der (primitive tag n content) ≡ tag ++ (e.octets ++ content)
unfolding encode_to
der_primitive tag content n e =
    ap (λ (t : Bytes). t ++ content) (e.appends tag) ∙ append_assoc tag e.octets content

pub der_structured :
    (tag : Bytes) (objs : Objects) (e : Encoded (length (der_all objs)))
    → der (structured tag objs) ≡ tag ++ (e.octets ++ der_all objs)
unfolding encode_to
der_structured tag objs e =
    ap (λ (t : Bytes). t ++ der_all objs) (e.appends tag) ∙ append_assoc tag e.octets (der_all objs)

pub der_object :
    (obj : Object) (objs : Objects) → der_all (object obj objs) ≡ der obj ++ der_all objs
unfolding encode_to
der_object obj objs = encode_all-append objs (der obj)

pub length-content :
    (tag : Bytes) (objs : Objects) → length (der_all objs) ≤ length (der (structured tag objs))
unfolding encode_to
length-content tag objs =
    omega (arith, length-append_bytes (encode_length tag (length (der_all objs))) (der_all objs))

pub der_none : der_all no_objects ≡ []
unfolding encode_to
der_none = refl

pub LengthOf-lt : (n : ℕ) (ls : Bytes) → LengthOf n ls → n < 2 ^ 31
LengthOf-lt n ls (short h e) = omega arith
LengthOf-lt n ls (long bs few minimal small writes e) = small

-- The parts of a written object, each below the bound on the whole.
pub der_parts :
    (obj : Object) (objs : Objects)
    → length (der_all (object obj objs)) ≡ length (der obj) + length (der_all objs)
der_parts obj objs =
    omega (arith, ap length (der_object obj objs), length-append_bytes (der obj) (der_all objs))

mutual
  pub Encodes-der :
      {levels : ℕ} {obj : Object} {bs : Bytes}
      → Encodes levels obj bs
      → length (der obj) < 2 ^ 31
      → Encodes levels obj (der obj)
  Encodes-der (primitive_form {n = n} {tag} {content} ls form kind e size whole) small =
      let written = encoded n (LengthOf-lt n ls size) in
      primitive_form written.octets form kind e written.form (der_primitive tag content n written)
  Encodes-der (definite_form {tag = tag} {objs = objs} ls content form kind size all whole) small =
      let inner = length-content tag objs in
      let written = encoded (length (der_all objs)) (omega arith) in
      definite_form written.octets (der_all objs) form kind written.form
        (EncodesAll-der all (omega arith)) (der_structured tag objs written)
  Encodes-der (indefinite_form {tag = tag} {objs = objs} content form kind all whole) small =
      let inner = length-content tag objs in
      let written = encoded (length (der_all objs)) (omega arith) in
      definite_form written.octets (der_all objs) form kind written.form
        (EncodesAll-der all (omega arith)) (der_structured tag objs written)

  pub EncodesAll-der :
      {levels : ℕ} {open_form : Bool} {objs : Objects} {bs : Bytes}
      → EncodesAll levels open_form objs bs
      → length (der_all objs) < 2 ^ 31
      → EncodesAll levels false objs (der_all objs)
  EncodesAll-der (none_left e) small = none_left der_none
  EncodesAll-der (one_more {obj = obj} {objs} first rest one plain all e) small =
      let parts = der_parts obj objs in
      one_more (der obj) (der_all objs) (Encodes-der one (omega arith)) tt
        (EncodesAll-der all (omega arith)) (der_object obj objs)

-- The length that is written takes five octets at most.
head_le :
    (tag content : Bytes) (n : ℕ) (e : Encoded n) (bs : Bytes)
    → bs ≡ tag ++ (e.octets ++ content)
    → length bs ≤ length tag + 5 + length content
head_le tag content n e bs whole =
    omega (arith, length-parts bs tag e.octets content whole, LengthOf-length_le n e.octets e.form)

mutual
  pub length-der :
      {levels : ℕ} {obj : Object} {bs : Bytes}
      → Encodes levels obj bs
      → 3 * length bs < 2 ^ 31
      → length (der obj) ≤ 3 * length bs
  length-der (primitive_form {n = n} {tag} {content} {bs} ls form kind e size whole) small =
      let written = encoded n (LengthOf-lt n ls size) in
      omega (
        arith,
        length-parts bs tag ls content whole,
        head_le tag content n written _ (der_primitive tag content n written),
        IsTag-length tag form,
        LengthOf-length n ls size,
      )
  length-der (definite_form {tag = tag} {bs} {objs} ls content form kind size all whole) small =
      let parts = length-parts bs tag ls content whole in
      let inner = length-der_all all (omega arith) in
      let written = encoded (length (der_all objs)) (omega arith) in
      omega (
        arith,
        head_le tag (der_all objs) _ written _ (der_structured tag objs written),
        IsTag-length tag form,
        LengthOf-length (length content) ls size,
      )
  length-der (indefinite_form {tag = tag} {bs} {objs} content form kind all whole) small =
      let parts = length-parts bs tag (128 ∷ []) (content ++ end_of_contents) whole in
      let behind = length-append_bytes content end_of_contents in
      let inner = length-der_all all (omega arith) in
      let written = encoded (length (der_all objs)) (omega arith) in
      omega (
        arith,
        head_le tag (der_all objs) _ written _ (der_structured tag objs written),
        IsTag-length tag form,
      )

  pub length-der_all :
      {levels : ℕ} {open_form : Bool} {objs : Objects} {bs : Bytes}
      → EncodesAll levels open_form objs bs
      → 3 * length bs < 2 ^ 31
      → length (der_all objs) ≤ 3 * length bs
  length-der_all (none_left e) small = omega (arith, ap length der_none)
  length-der_all (one_more {obj = obj} {objs} {bs} first rest one plain all e) small =
      let parts : length bs ≡ length first + length rest = omega (lengths, ap length e) in
      omega
        (arith, der_parts obj objs, length-der one (omega arith), length-der_all all (omega arith))
