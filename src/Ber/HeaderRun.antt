-- ===== src/Ber/HeaderRun.antt =====
-- ber.go, `readObject` up to the content: it reads the header of every object of the grammar.
use pkcs.Base.{ℕ, ◌+◌, ◌≤◌, ◌<◌, ◌≡◌, refl, [], ◌∷◌, ◌++◌}
use pkcs.Base.{true, false, not, length, Bytes, IsByte, ok}
use pkcs.Base.{le→ltb_false, All-append_left}
use pkcs.Ber.Decode.{read_tag, read_header, max_nesting_depth}
use pkcs.Ber.Grammar.{IsTag, IsConstructed, LengthOf, short, long}
use pkcs.Ber.Cursor.{At, At-advance, slice_in-At}
use pkcs.Ber.Tag.{first, read_tag_run}
use pkcs.Ber.LengthRun.{read_length_run, read_length-indefinite}
use pkcs.Ber.Header.{primitive_kind, kind_of_constructed}

-- Octets of a length behind a tag, with at least one octet.
read_tag-length :
    (ber : Bytes) (offset n : ℕ) (tag ls ys : Bytes)
    → At ber offset (tag ++ (ls ++ ys))
    → IsTag tag
    → LengthOf n ls
    → read_tag ber offset ≡ ok (first tag, offset + length tag)
read_tag-length ber offset n tag [] ys at form (short h e) = absurd (cc)
read_tag-length ber offset n tag [] ys at form (long bs few minimal small writes e) = absurd (cc)
read_tag-length ber offset n tag (l ∷ ls) ys at form size =
    read_tag_run ber offset tag l (ls ++ ys) at form

-- The header of an object in a definite form.
pub read_header_run :
    (ber : Bytes) (offset depth n : ℕ) (tag ls ys : Bytes)
    → At ber offset (tag ++ (ls ++ ys))
    → IsTag tag
    → LengthOf n ls
    → n ≤ length ys
    → depth ≤ max_nesting_depth
    → read_header ber offset depth
      ≡ ok (record {
        constructed = not (primitive_kind (first tag));
        tag_bytes = tag;
        indefinite = false;
        value = n;
        start = offset + length tag + length ls;
      })
unfolding read_header
read_header_run ber offset depth n tag ls ys at form size room shallow =
    let behind = At-advance ber offset tag (ls ++ ys) at in
    rw (
      le→ltb_false _ _ shallow,
      read_tag-length ber offset n tag ls ys at form size,
      read_length_run ber (offset + length tag) n ls ys behind size room,
      slice_in-At ber offset (offset + length tag) tag (ls ++ ys) at refl,
    )

-- The header of an object in the indefinite form.
pub read_header-indefinite :
    (ber : Bytes) (offset depth : ℕ) (tag ys : Bytes)
    → At ber offset (tag ++ (128 ∷ ys))
    → IsTag tag
    → IsConstructed tag
    → 0 < length ys
    → depth ≤ max_nesting_depth
    → read_header ber offset depth
      ≡ ok (record {
        constructed = true;
        tag_bytes = tag;
        indefinite = true;
        value = 0;
        start = offset + length tag + 1;
      })
unfolding read_header
read_header-indefinite ber offset depth tag ys at form kind room shallow =
    let behind = At-advance ber offset tag (128 ∷ ys) at in
    let bit = kind_of_constructed tag (All-append_left IsByte tag (128 ∷ ys) at.bytes) kind in
    rw (
      le→ltb_false _ _ shallow,
      read_tag_run ber offset tag 128 ys at form,
      read_length-indefinite ber (offset + length tag) ys behind room,
      slice_in-At ber offset (offset + length tag) tag (128 ∷ ys) at refl,
      bit,
    )
