-- ===== src/Ber/Octets.antt =====
-- What `EncodeTo` writes for an object that was read from bytes are bytes again.
use pkcs.Base.{ℕ, ◌^◌, ◌<◌, ◌≡◌, sym, subst, [], ◌∷◌, ◌++◌}
use pkcs.Base.{
  Bool, length, Bytes, IsByte, All, All-append, All-append_left, All-append_right, arith,
}
use pkcs.Ber.Encode.{Object, Objects}
use pkcs.Ber.Grammar.{
  Encodes, EncodesAll, primitive_form, definite_form, indefinite_form, none_left, one_more,
  end_of_contents,
}
use pkcs.Ber.LengthOctets.{Encoded, encoded}
use pkcs.Ber.Canonical.{
  der, der_all, der_primitive, der_structured, der_object, der_none, der_parts, length-content,
  LengthOf-lt,
}

-- The parts of an encoding are bytes.
module _ (bs tag ls content : Bytes) (whole : bs ≡ tag ++ (ls ++ content)) (h : All IsByte bs) where
  parts_bytes : All IsByte (tag ++ (ls ++ content))
  parts_bytes = subst (λ (t : Bytes). All IsByte t) whole h

  tag_bytes : All IsByte tag
  tag_bytes = All-append_left IsByte tag (ls ++ content) parts_bytes

  content_bytes : All IsByte content
  content_bytes =
      All-append_right IsByte ls content (All-append_right IsByte tag (ls ++ content) parts_bytes)

written_bytes :
    (out tag content : Bytes) (n : ℕ) (e : Encoded n)
    → out ≡ tag ++ (e.octets ++ content)
    → All IsByte tag
    → All IsByte content
    → All IsByte out
written_bytes out tag content n e whole h k =
    subst (λ (t : Bytes). All IsByte t) (sym whole)
      (All-append IsByte tag (e.octets ++ content) h (All-append IsByte e.octets content e.bytes k))

mutual
  pub der-IsByte :
      {levels : ℕ} {obj : Object} {bs : Bytes}
      → Encodes levels obj bs
      → All IsByte bs
      → length (der obj) < 2 ^ 31
      → All IsByte (der obj)
  der-IsByte (primitive_form {n = n} {tag} {content} {bs} ls form kind e size whole) h small =
      let written = encoded n (LengthOf-lt n ls size) in
      written_bytes _ tag content n written (der_primitive tag content n written)
        (tag_bytes bs tag ls content whole h) (content_bytes bs tag ls content whole h)
  der-IsByte (definite_form {tag = tag} {bs} {objs} ls content form kind size all whole) h small =
      let inner = length-content tag objs in
      let written = encoded (length (der_all objs)) (omega arith) in
      written_bytes _ tag (der_all objs) _ written (der_structured tag objs written)
        (tag_bytes bs tag ls content whole h)
        (der_all-IsByte all (content_bytes bs tag ls content whole h) (omega arith))
  der-IsByte (indefinite_form {tag = tag} {bs} {objs} content form kind all whole) h small =
      let inner = length-content tag objs in
      let written = encoded (length (der_all objs)) (omega arith) in
      let behind = content_bytes bs tag (128 ∷ []) (content ++ end_of_contents) whole h in
      written_bytes _ tag (der_all objs) _ written (der_structured tag objs written)
        (tag_bytes bs tag (128 ∷ []) (content ++ end_of_contents) whole h)
        (der_all-IsByte all (All-append_left IsByte content end_of_contents behind) (omega arith))

  pub der_all-IsByte :
      {levels : ℕ} {open_form : Bool} {objs : Objects} {bs : Bytes}
      → EncodesAll levels open_form objs bs
      → All IsByte bs
      → length (der_all objs) < 2 ^ 31
      → All IsByte (der_all objs)
  der_all-IsByte (none_left e) h small = subst (λ (t : Bytes). All IsByte t) (sym der_none) tt
  der_all-IsByte (one_more {obj = obj} {objs} {bs} first rest one plain all e) h small =
      let parts = der_parts obj objs in
      let both = subst (λ (t : Bytes). All IsByte t) e h in
      subst (λ (t : Bytes). All IsByte t) (sym (der_object obj objs))
        (All-append IsByte (der obj) (der_all objs)
          (der-IsByte one (All-append_left IsByte first rest both) (omega arith))
          (der_all-IsByte all (All-append_right IsByte first rest both) (omega arith)))
