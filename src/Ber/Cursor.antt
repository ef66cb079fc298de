-- ===== src/Ber/Cursor.antt =====
-- An offset into a slice, seen as the bytes before it and the bytes from it on.
pub use pkcs.Base.{Cut, cut}
use pkcs.Base.{ℕ, ◌+◌, ◌-◌, ◌≡◌, refl, sym, ap, subst, ◌∙◌, [], ◌∷◌, ◌++◌, append_assoc}
use pkcs.Base.{
  length, take, Bytes, IsByte, All, All-append_left, All-append_right, ok, arith, lengths,
  length-append_bytes,
}
use pkcs.Base.{slice_in, slice_in-slice}
use pkcs.Base.{take_append, drop_append, get_elem?_append}
use pkcs.Ber.Decode.{index, Error, slice}

-- `ber[offset:]` is `xs`, which are bytes.
pub record At (ber : Bytes) (offset : ℕ) (xs : Bytes) : Type 0 where
  pub before : Bytes
  pub split : ber ≡ before ++ xs
  pub here : offset ≡ length before
  pub bytes : All IsByte xs

pub At-start : (ber : Bytes) → All IsByte ber → At ber 0 ber
At-start ber h = record { before = []; split = refl; here = refl; bytes = h }

pub At-advance :
    (ber : Bytes) (offset : ℕ) (bs xs : Bytes)
    → At ber offset (bs ++ xs)
    → At ber (offset + length bs) xs
At-advance ber offset bs xs at = record {
  before = at.before ++ bs;
  split = at.split ∙ sym (append_assoc at.before bs xs);
  here = omega (lengths, at.here);
  bytes = All-append_right IsByte bs xs at.bytes;
}

pub At-next :
    (ber : Bytes) (offset b : ℕ) (xs : Bytes) → At ber offset (b ∷ xs) → At ber (offset + 1) xs
At-next ber offset b xs at = At-advance ber offset (b ∷ []) xs at

pub At-length :
    (ber : Bytes) (offset : ℕ) (xs : Bytes) → At ber offset xs → length ber ≡ offset + length xs
At-length ber offset xs at = omega (lengths, ap length at.split, at.here)

pub index-At :
    (ber : Bytes) (offset b : ℕ) (xs : Bytes)
    → At ber offset (b ∷ xs)
    → index {E = Error} ber offset ≡ ok b
unfolding index
index-At ber offset b xs at = rw (at.split, at.here, index, get_elem?_append at.before xs b)

pub slice-At :
    (ber : Bytes) (offset end : ℕ) (bs xs : Bytes)
    → At ber offset (bs ++ xs)
    → end ≡ offset + length bs
    → slice ber offset end ≡ bs
slice-At ber offset end bs xs at e =
    let gap : end - offset ≡ length bs = omega arith in
    rw (gap, at.split, at.here, drop_append at.before (bs ++ xs), take_append bs xs)

pub slice_in-At :
    (ber : Bytes) (offset end : ℕ) (bs xs : Bytes)
    → At ber offset (bs ++ xs)
    → end ≡ offset + length bs
    → slice_in {E = Error} ber offset end ≡ ok bs
slice_in-At ber offset end bs xs at e =
    slice_in-slice ber offset end (omega arith)
      (omega (arith, At-length ber offset (bs ++ xs) at, length-append_bytes bs xs))
    ∙ ap ok (slice-At ber offset end bs xs at e)

-- `ber[:end]`
pub At-take :
    (ber : Bytes) (offset end : ℕ) (bs xs : Bytes)
    → At ber offset (bs ++ xs)
    → end ≡ offset + length bs
    → At (take end ber) offset bs
At-take ber offset end bs xs at e = record {
  before = at.before;
  split =
      let whole : end ≡ length (at.before ++ bs) = omega (lengths, at.here) in
      rw (at.split, ← append_assoc, whole, take_append (at.before ++ bs) xs);
  here = at.here;
  bytes = All-append_left IsByte bs xs at.bytes;
}

-- At the same place, the bytes written in another way.
pub At-rewrite :
    (ber : Bytes) (offset : ℕ) (xs ys : Bytes) → xs ≡ ys → At ber offset xs → At ber offset ys
At-rewrite ber offset xs ys e at = subst (λ zs. At ber offset zs) e at

-- An object in its parts, with what follows it.
pub At-parts :
    (ber : Bytes) (offset : ℕ) (bs tag ls content ys : Bytes)
    → bs ≡ tag ++ (ls ++ content)
    → At ber offset (bs ++ ys)
    → At ber offset (tag ++ (ls ++ (content ++ ys)))
At-parts ber offset bs tag ls content ys e at =
    At-rewrite ber offset (bs ++ ys) (tag ++ (ls ++ (content ++ ys)))
      (ap (λ (t : Bytes). t ++ ys) e ∙ simp append_assoc) at

pub length-parts :
    (bs tag ls content : Bytes)
    → bs ≡ tag ++ (ls ++ content)
    → length bs ≡ length tag + length ls + length content
length-parts bs tag ls content e =
    omega
      (arith, ap length e, length-append_bytes tag (ls ++ content), length-append_bytes ls content)

-- Behind the tag and the length.
pub At-content :
    (ber : Bytes) (offset : ℕ) (tag ls xs : Bytes)
    → At ber offset (tag ++ (ls ++ xs))
    → At ber (offset + length tag + length ls) xs
At-content ber offset tag ls xs at =
    At-advance ber (offset + length tag) ls xs (At-advance ber offset tag (ls ++ xs) at)
