-- ===== src/Ber/Tag.antt =====
-- The reader of a tag, `read_tag`: what it accepts, and that it reads every tag.
use pkcs.Base.{ℕ, zero, suc, ◌+◌, ◌-◌, ◌*◌, ◌%◌, ◌≤◌, ◌<◌, ◌≡◌, ◌≢◌, refl, ap, [], ◌∷◌, ◌++◌}
use pkcs.Base.{leb, ◌==◌, length, Bytes, ok, arith, lengths, length-append_bytes}
use pkcs.Base.{
  Ensures, holds, Ensures->>=, Ensures-fail_if, Ensures-if, Ensures-map, leb→le, bit_and,
}
use pkcs.Base.Bits.{bit_and-0x1f}
use pkcs.Ber.Decode.{skip_tag, read_tag}
use pkcs.Ber.Grammar.{IsTag, IsHighTag}
use pkcs.Ber.Cursor.{At, At-next, At-length, index-At}

-- The first octet.
abbrev pub first : Bytes → ℕ
first [] = 0
first (b ∷ bs) = b

-- A prefix of `xs` that is a tag's high form, and where it ends.
record HighTag (offset : ℕ) (xs : Bytes) (last : ℕ) : Type 0 where
  tail : Bytes
  back : Bytes
  whole : xs ≡ tail ++ back
  form : IsHighTag tail
  ends : last + 1 ≡ offset + length tail

one_octet : (offset b : ℕ) (xs : Bytes) → b < 128 → HighTag offset (b ∷ xs) offset
one_octet offset b xs h = record {
  tail = b ∷ [];
  back = xs;
  whole = refl;
  form = h;
  ends = omega arith;
}

IsHighTag-cons : (b : ℕ) (bs : Bytes) → 128 ≤ b → IsHighTag bs → IsHighTag (b ∷ bs)
IsHighTag-cons b [] h k = absurd k
IsHighTag-cons b (c ∷ bs) h k = (h, k)

next_octet :
    (offset b last : ℕ) (xs : Bytes)
    → 128 ≤ b
    → HighTag (offset + 1) xs last
    → HighTag offset (b ∷ xs) last
next_octet offset b last xs h t = record {
  tail = b ∷ t.tail;
  back = t.back;
  whole = ap (λ (r : Bytes). b ∷ r) t.whole;
  form = IsHighTag-cons b t.tail h t.form;
  ends = omega (arith, t.ends);
}

skip_tag-Ensures :
    (fuel : ℕ) (ber : Bytes) (offset b : ℕ) (xs : Bytes) (tag : ℕ)
    → At ber offset (b ∷ xs)
    → length xs < fuel
    → Ensures (λ (last, _). HighTag offset (b ∷ xs) last) (skip_tag fuel ber offset tag)
unfolding skip_tag
skip_tag-Ensures zero ber offset b xs tag at h = absurd (omega arith)
skip_tag-Ensures (suc fuel) ber offset b [] tag at h = rw (index-At ber offset b [] at) (
    Ensures-if (leb 0x80 b)
      (λ high.
        Ensures-fail_if (leb (length ber) (offset + 1)) _
          (λ inside. absurd (ground (arith, At-length ber offset (b ∷ []) at))))
      (λ low. holds (one_octet offset b [] (ground arith))))
skip_tag-Ensures (suc fuel) ber offset b (c ∷ xs) tag at h =
    rw (index-At ber offset b (c ∷ xs) at) (
      Ensures-if (leb 0x80 b)
        (λ high. Ensures-fail_if (leb (length ber) (offset + 1)) _ (λ inside.
          Ensures-map (λ (last, t) k. next_octet offset b last (c ∷ xs) (leb→le _ _ high) k)
            (skip_tag-Ensures fuel ber (offset + 1) c xs ((tag * 128 + b + 128) % 256)
              (At-next ber offset b (c ∷ xs) at) (omega arith))))
        (λ low. holds (one_octet offset b (c ∷ xs) (ground arith))))

-- What a successful `read_tag` has read.
pub record TagRead (offset : ℕ) (xs : Bytes) (b end : ℕ) : Type 0 where
  pub tag : Bytes
  pub next : ℕ
  pub back : Bytes
  pub whole : xs ≡ tag ++ (next ∷ back)
  pub form : IsTag tag
  pub head : first tag ≡ b
  pub ends : end ≡ offset + length tag

low_tag : (offset b c : ℕ) (xs : Bytes) → b % 32 ≢ 31 → TagRead offset (b ∷ c ∷ xs) b (offset + 1)
low_tag offset b c xs h = record {
  tag = b ∷ [];
  next = c;
  back = xs;
  whole = refl;
  form = h;
  head = refl;
  ends = refl;
}

IsTag-cons : (b : ℕ) (bs : Bytes) → b % 32 ≡ 31 → IsHighTag bs → IsTag (b ∷ bs)
IsTag-cons b [] h k = absurd k
IsTag-cons b (c ∷ bs) h k = (h, k)

high_tag :
    (offset b last : ℕ) (xs : Bytes)
    → b % 32 ≡ 31
    → (t : HighTag (offset + 1) xs last) → last + 1 < offset + 1 + length xs
    → TagRead offset (b ∷ xs) b (last + 1)
high_tag offset b last xs h t inside = split t.back t.whole
  where
    split : (back : Bytes) → xs ≡ t.tail ++ back → TagRead offset (b ∷ xs) b (last + 1)
    split [] e = absurd (omega (lengths, ap length e, t.ends))
    split (c ∷ back) e = record {
      tag = b ∷ t.tail;
      next = c;
      back = back;
      whole = ap (λ (r : Bytes). b ∷ r) e;
      form = IsTag-cons b t.tail h t.form;
      head = refl;
      ends = omega (arith, t.ends);
    }

-- `read_tag` never panics; if it succeeds the bytes begin with a tag, and one byte more is there.
pub read_tag-Ensures :
    (ber : Bytes) (offset : ℕ) (xs : Bytes)
    → At ber offset xs
    → Ensures (λ (b, end). TagRead offset xs b end) (read_tag ber offset)
unfolding read_tag
read_tag-Ensures ber offset [] at =
    Ensures-fail_if (leb (length ber) offset) _
      (λ inside. absurd (ground (arith, At-length ber offset [] at)))
read_tag-Ensures ber offset (b ∷ []) at = rw (index-At ber offset b [] at) (
    Ensures-fail_if (leb (length ber) offset) _ (λ inside.
      Ensures-fail_if (leb (length ber) (offset + 1)) _
        (λ more. absurd (ground (arith, At-length ber offset (b ∷ []) at)))))
read_tag-Ensures ber offset (b ∷ c ∷ xs) at = rw (index-At ber offset b (c ∷ xs) at) (
    Ensures-fail_if (leb (length ber) offset) _ (λ inside.
      Ensures-fail_if (leb (length ber) (offset + 1)) _ (λ more.
        Ensures-if (bit_and b 0x1f == 0x1f)
          (λ high.
            Ensures->>=
              (skip_tag-Ensures (length ber) ber (offset + 1) c xs 0
                (At-next ber offset b (c ∷ xs) at)
                (omega (arith, At-length ber offset (b ∷ c ∷ xs) at)))
              (λ (last, _) t. Ensures-fail_if (leb (length ber) (last + 1)) _ (λ room. holds (
                high_tag offset b last (c ∷ xs) (ground (arith, bit_and-0x1f b)) t
                  (ground (arith, At-length ber offset (b ∷ c ∷ xs) at))))))
          (λ low. holds (low_tag offset b c xs (ground (arith, bit_and-0x1f b)))))))

skip_tag_run :
    (fuel : ℕ) (ber : Bytes) (offset : ℕ) (bs ys : Bytes) (tag : ℕ)
    → At ber offset (bs ++ ys)
    → IsHighTag bs
    → length bs ≤ fuel
    → (t : ℕ) × (skip_tag fuel ber offset tag ≡ ok (offset + length bs - 1, t))
unfolding skip_tag
skip_tag_run fuel ber offset [] ys tag at form h = absurd form
skip_tag_run zero ber offset (b ∷ bs) ys tag at form h = absurd (omega arith)
skip_tag_run (suc fuel) ber offset (b ∷ []) ys tag at form h =
    (tag, rw (index-At ber offset b ys at) (ground arith))
skip_tag_run (suc fuel) ber offset (b ∷ c ∷ bs) ys tag at form h =
    let next = At-next ber offset b (c ∷ bs ++ ys) at in
    let tag' = (tag * 128 + b + 128) % 256 in
    let (t, run) = skip_tag_run fuel ber (offset + 1) (c ∷ bs) ys tag' next form.1 (omega arith) in
    (
      t,
      rw (index-At ber offset b (c ∷ bs ++ ys) at)
          (ground (arith, run, At-length ber (offset + 1) (c ∷ bs ++ ys) next)),
    )

-- A tag that is followed by a byte is read whole.
pub read_tag_run :
    (ber : Bytes) (offset : ℕ) (tag : Bytes) (next : ℕ) (ys : Bytes)
    → At ber offset (tag ++ (next ∷ ys))
    → IsTag tag
    → read_tag ber offset ≡ ok (first tag, offset + length tag)
unfolding read_tag
read_tag_run ber offset [] next ys at form = absurd form
read_tag_run ber offset (b ∷ []) next ys at form =
    rw (index-At ber offset b (next ∷ ys) at)
      (ground (arith, bit_and-0x1f b, At-length ber offset (b ∷ next ∷ ys) at))
read_tag_run ber offset (b ∷ c ∷ bs) next ys at form =
    let at' = At-next ber offset b (c ∷ bs ++ (next ∷ ys)) at in
    let all = At-length ber offset (b ∷ c ∷ bs ++ (next ∷ ys)) at in
    let (t, run) =
      skip_tag_run (length ber) ber (offset + 1) (c ∷ bs) (next ∷ ys) 0 at' form.1
        (omega (arith, all, length-append_bytes bs (next ∷ ys))) in
    rw (index-At ber offset b (c ∷ bs ++ (next ∷ ys)) at)
      (ground (arith, run, all, bit_and-0x1f b, length-append_bytes bs (next ∷ ys)))
