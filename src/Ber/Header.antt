-- ===== src/Ber/Header.antt =====
-- ber.go, `readObject` up to the content: what `read_header` accepts.
use pkcs.Base.{ℕ, ◌+◌, ◌/◌, ◌%◌, ◌≤◌, ◌<◌, ◌≡◌, ◌⊎◌, refl, ap, ◌∙◌, [], ◌∷◌, ◌++◌}
use pkcs.Base.{
  Bool, true, false, ltb, ◌==◌, ◌&&◌, length, Bytes, IsByte, All, arith, length-append_bytes,
  bit_and,
}
use pkcs.Base.{Ensures, holds, Ensures->>=, Ensures-fail_if, ltb_false→le, All-append_left}
use pkcs.Base.Bits.{bit_and-0x20}
use pkcs.Ber.Decode.{read_header, Header, max_nesting_depth}
use pkcs.Ber.Grammar.{IsTag, IsPrimitive, IsConstructed, LengthOf}
use pkcs.Ber.Cursor.{At, At-advance, At-rewrite, slice_in-At}
use pkcs.Ber.Tag.{first, read_tag-Ensures}
use pkcs.Ber.Length.{read_length-Ensures}

-- What a successful `read_header` has read: a tag, the octets of a length, and the content behind.
pub record HeaderRead (ber : Bytes) (offset : ℕ) (xs : Bytes) (h : Header) : Type 0 where
  pub tag : Bytes
  pub octets : Bytes
  pub back : Bytes
  pub whole : xs ≡ tag ++ (octets ++ back)
  pub form : IsTag tag
  pub same_tag : h.tag_bytes ≡ tag
  pub some_octet : 1 ≤ length octets
  pub starts : h.start ≡ offset + length (tag ++ octets)
  pub definite : h.indefinite ≡ false → LengthOf h.value octets
  pub open_form : h.indefinite ≡ true → (octets ≡ 128 ∷ []) × (h.value ≡ 0) × (h.constructed ≡ true)
  pub is_primitive : h.constructed ≡ false → IsPrimitive tag
  pub is_constructed : h.constructed ≡ true → IsConstructed tag
  pub fits : h.start + h.value ≤ length ber

-- The test of bit 6 on the first octet.
abbrev pub primitive_kind : ℕ → Bool
primitive_kind b = bit_and b 0x20 == 0

kind_bit :
    (b : ℕ)
    → b < 256
    → (b / 32 % 2 ≡ 0) × (primitive_kind b ≡ true) ⊎ (b / 32 % 2 ≡ 1) × (primitive_kind b ≡ false)
kind_bit b h = ground (arith, bit_and-0x20 b)

IsPrimitive-tag :
    (tag : Bytes) → All IsByte tag → IsTag tag → primitive_kind (first tag) ≡ true → IsPrimitive tag
IsPrimitive-tag [] h form e = form
IsPrimitive-tag (b ∷ bs) h form e = ground (arith, kind_bit b)

IsConstructed-tag :
    (tag : Bytes)
    → All IsByte tag
    → IsTag tag
    → primitive_kind (first tag) ≡ false
    → IsConstructed tag
IsConstructed-tag [] h form e = form
IsConstructed-tag (b ∷ bs) h form e = ground (arith, kind_bit b)

pub kind_of_primitive :
    (tag : Bytes) → All IsByte tag → IsPrimitive tag → primitive_kind (first tag) ≡ true
kind_of_primitive [] h e = absurd e
kind_of_primitive (b ∷ bs) h e = ground (arith, kind_bit b)

pub kind_of_constructed :
    (tag : Bytes) → All IsByte tag → IsConstructed tag → primitive_kind (first tag) ≡ false
kind_of_constructed [] h e = absurd e
kind_of_constructed (b ∷ bs) h e = ground (arith, kind_bit b)

-- `read_header` never panics.
pub read_header-Ensures :
    (ber : Bytes) (offset depth : ℕ) (xs : Bytes)
    → At ber offset xs
    → Ensures
        (λ h. HeaderRead ber offset xs h × (depth ≤ max_nesting_depth))
        (read_header ber offset depth)
unfolding read_header
read_header-Ensures ber offset depth xs at =
    Ensures-fail_if (ltb max_nesting_depth depth) _ (λ shallow.
      Ensures->>= (read_tag-Ensures ber offset xs at) (λ (b, tag_end) t.
        let at' = At-rewrite ber offset xs (t.tag ++ (t.next ∷ t.back)) t.whole at in
        let tag_bytes = All-append_left IsByte t.tag (t.next ∷ t.back) at'.bytes in
        let behind : At ber tag_end (t.next ∷ t.back) =
          rw t.ends (At-advance ber offset t.tag (t.next ∷ t.back) at') in
        Ensures->>= (read_length-Ensures ber tag_end t.next t.back behind) (λ len (r, fits).
          Ensures-fail_if (len.indefinite && (bit_and b 0x20 == 0)) _ (λ sound.
            rw (slice_in-At ber offset tag_end t.tag (t.next ∷ t.back) at' t.ends) (
              holds (
                record {
                  tag = t.tag;
                  octets = r.octets;
                  back = r.back;
                  whole = t.whole ∙ ap (λ (ys : Bytes). t.tag ++ ys) r.whole;
                  form = t.form;
                  same_tag = refl;
                  some_octet = r.some_octet;
                  starts = omega (arith, r.ends, t.ends, length-append_bytes t.tag r.octets);
                  definite = r.definite;
                  open_form = λ e. ((r.open_form e).0, (r.open_form e).1, ground arith);
                  is_primitive =
                      λ e. IsPrimitive-tag t.tag tag_bytes t.form (ground (arith, t.head));
                  is_constructed =
                      λ e. IsConstructed-tag t.tag tag_bytes t.form (ground (arith, t.head));
                  fits = fits;
                },
                ltb_false→le _ _ shallow,
              ))))))
