-- ===== src/Ber/Decode.antt =====
-- ber.go: `ber2der`, `readObject` and `isIndefiniteTermination`.
pub use pkcs.Base.{slice}
unfoldable pub use pkcs.Base.{index}
use pkcs.Base.{ℕ, zero, suc, ◌+◌, ◌*◌, ◌%◌, ◌^◌, bit_and, []}
use pkcs.Base.{Bool, true, false, ◌&&◌, ◌||◌, not, ltb, leb, ◌==◌, if◌then◌else◌}
use pkcs.Base.{length, Bytes}
use pkcs.Base.{Outcome, ok, stuck, ◌>>=◌, ◌>>◌, fail_if, slice_in, prefix_in}
use pkcs.Ber.Encode.{Object, Objects, primitive, structured, no_objects, object, encode_to}

-- The texts of the errors of ber.go, each once.
pub data Error : Type 0 where
  input_empty nesting_depth after_end cannot_move tag_length_too_long tag_length_negative : Error
  leading_zero negative_value more_than_available indefinite_primitive invalid_format : Error

abbrev pub Res : Type 0 → Type 0
Res A = Outcome Error A

abbrev pub max_nesting_depth : ℕ
max_nesting_depth = 500

-- `for ber[offset] >= 0x80 { … }` over the offset and the byte variable `tag`, which wraps.
unfoldable pub skip_tag : ℕ → Bytes → ℕ → ℕ → Res (ℕ × ℕ)
skip_tag zero ber offset tag = stuck
skip_tag (suc fuel) ber offset tag = do
  b ← index ber offset
  let rest = do
    fail_if (leb (length ber) (offset + 1)) cannot_move
    skip_tag fuel ber (offset + 1) ((tag * 128 + b + 128) % 256)
  if leb 0x80 b then rest else ok (offset, tag)

-- The first byte of the tag, and the offset behind the tag.
unfoldable pub read_tag : Bytes → ℕ → Res (ℕ × ℕ)
read_tag ber offset = do
  fail_if (leb (length ber) offset) after_end
  b ← index ber offset
  fail_if (leb (length ber) (offset + 1)) cannot_move
  let high = do
    (last, tag) ← skip_tag (length ber) ber (offset + 1) 0
    fail_if (leb (length ber) (last + 1)) cannot_move
    ok (b, last + 1)
  if bit_and b 0x1f == 0x1f then high else ok (b, offset + 1)

-- `for i := 0; i < numberOfBytes; i++ { length = length*256 + int(ber[offset]); offset++ }`, at the
-- smallest width of an int, 32 bits.
unfoldable pub read_int : Bytes → ℕ → ℕ → ℕ → Res (ℕ × ℕ)
read_int ber offset zero n = ok (n, offset)
read_int ber offset (suc i) n = do
  b ← index ber offset
  read_int ber (offset + 1) i ((n * 256 + b) % 2 ^ 32)

-- `int(ber[offset]) == 0x0 && (numberOfBytes == 1 || ber[offset+1] <= 0x7F)`
unfoldable pub has_leading_zero : Bytes → ℕ → ℕ → Res Bool
has_leading_zero ber offset number_of_bytes = do
  b ← index ber offset
  let second = do c ← index ber (offset + 1); ok (leb c 0x7f)
  if b == 0 then (if number_of_bytes == 1 then ok true else second) else ok false

-- `if numberOfBytes == 4 && int(ber[offset]) > 0x7F`
unfoldable pub top_octet : Bytes → ℕ → ℕ → Res (Unit {0})
top_octet ber offset number_of_bytes =
    let top = do b ← index ber offset; fail_if (ltb 0x7f b) tag_length_negative
    in if number_of_bytes == 4 then top else ok tt

-- The bytes of a length in the long form, `l > 0x80`.
unfoldable pub read_long_length : Bytes → ℕ → ℕ → Res (ℕ × ℕ)
read_long_length ber offset l = do
  let number_of_bytes = bit_and l 0x7f
  fail_if (ltb 4 number_of_bytes) tag_length_too_long
  top_octet ber offset number_of_bytes
  fail_if (ltb (length ber) (offset + number_of_bytes)) cannot_move
  zero_first ← has_leading_zero ber offset number_of_bytes
  fail_if zero_first leading_zero
  read_int ber offset number_of_bytes 0

pub record Length : Type 0 where
  pub value : ℕ
  pub indefinite : Bool
  pub start : ℕ

-- The length, if it is indefinite, and the offset of the content. An int is negative from 2^31 on.
unfoldable pub read_length : Bytes → ℕ → Res Length
read_length ber tag_end = do
  l ← index ber tag_end
  let offset = tag_end + 1
  fail_if (leb 0x80 l && leb (length ber) offset) cannot_move
  let long = do
    (n, start) ← read_long_length ber offset l
    ok (record { value = n; indefinite = false; start = start })
  let short : Res Length = ok (record { value = l; indefinite = false; start = offset })
  let open_form : Res Length = ok (record { value = 0; indefinite = true; start = offset })
  len ← if ltb 0x80 l then long else if l == 0x80 then open_form else short
  fail_if (leb (2 ^ 31) len.value) negative_value
  fail_if (ltb (length ber) (len.start + len.value)) more_than_available
  ok len

pub record Header : Type 0 where
  pub constructed : Bool
  pub tag_bytes : Bytes
  pub indefinite : Bool
  pub value : ℕ
  pub start : ℕ

-- All that `readObject` does before it makes the object.
unfoldable pub read_header : Bytes → ℕ → ℕ → Res Header
read_header ber offset depth = do
  fail_if (ltb max_nesting_depth depth) nesting_depth
  (b, tag_end) ← read_tag ber offset
  let primitive_kind = bit_and b 0x20 == 0
  len ← read_length ber tag_end
  fail_if (len.indefinite && primitive_kind) indefinite_primitive
  tag_bytes ← slice_in ber offset tag_end
  ok (record {
    constructed = not primitive_kind;
    tag_bytes = tag_bytes;
    indefinite = len.indefinite;
    value = len.value;
    start = len.start;
  })

unfoldable pub is_indefinite_termination : Bytes → ℕ → Res Bool
is_indefinite_termination ber offset = do
  fail_if (ltb (length ber) (offset + 2)) invalid_format
  b ← index ber offset
  let second = do c ← index ber (offset + 1); ok (c == 0)
  if b == 0 then second else ok false

-- The test of the loop over the sub-objects with the `break` in its body: is there another round?
unfoldable pub goes_on : Bytes → ℕ → ℕ → Bool → Res Bool
goes_on ber offset content_end indefinite = do
  let open_form = do terminated ← is_indefinite_termination ber offset; ok (not terminated)
  if ltb offset content_end || indefinite
      then (if indefinite then open_form else ok true)
      else ok false

-- `readObject`, and its loop over the sub-objects. Each call costs a unit of fuel.
unfoldable mutual
  pub read_object : ℕ → Bytes → ℕ → ℕ → Res (Object × ℕ)
  read_object zero ber offset depth = stuck
  read_object (suc fuel) ber offset depth = do
    h ← read_header ber offset depth
    let content_end = h.start + h.value
    let contents = do
      narrowed ← if h.indefinite then ok ber else prefix_in ber content_end
      (objs, end) ← read_objects fuel narrowed h.start content_end h.indefinite depth
      ok (structured h.tag_bytes objs, if h.indefinite then end + 2 else content_end)
    if h.constructed then contents else (do
      content ← slice_in ber h.start content_end
      ok (primitive h.tag_bytes h.value content, content_end))

  pub read_objects : ℕ → Bytes → ℕ → ℕ → Bool → ℕ → Res (Objects × ℕ)
  read_objects zero ber offset content_end indefinite depth = stuck
  read_objects (suc fuel) ber offset content_end indefinite depth = do
    more ← goes_on ber offset content_end indefinite
    let round = do
      (obj, next) ← read_object fuel ber offset (depth + 1)
      (objs, end) ← read_objects fuel ber next content_end indefinite depth
      ok (object obj objs, end)
    if more then round else ok (no_objects, offset)

-- An object takes two bytes at least, so one unit of fuel for each byte is enough.
unfoldable pub ber2der : Bytes → Res Bytes
ber2der ber = do
  fail_if (length ber == 0) input_empty
  (obj, _) ← read_object (length ber + 1) ber 0 0
  ok (encode_to obj [])
