-- ===== src/Ber/Length.antt =====
-- ber.go, the length part of `readObject`: what `read_length` accepts.
use pkcs.Base.{ℕ, suc, ◌+◌, ◌*◌, ◌%◌, ◌^◌, ◌≤◌, ◌<◌, ◌≡◌, refl, ap, [], ◌∷◌, ◌++◌}
use pkcs.Base.{
  true, false, ltb, leb, ◌==◌, ◌&&◌, length, Bytes, IsByte, All, ok, ◌>>=◌, ◌>>◌, fail_if,
  All-append_left, arith,
}
use pkcs.Base.{
  Ensures, holds, Ensures->>=, Ensures-fail_if, Ensures-fail_if_end, Ensures-if, ltb→lt, ==→eq,
  ltb_false→le,
}
use pkcs.Base.Bits.{bit_and-0x7f}
use pkcs.Ber.Decode.{
  read_int, top_octet, has_leading_zero, read_long_length, read_length, leading_zero, Length,
}
use pkcs.Ber.Grammar.{big_endian, NoLeadingZero, LengthOf, short, long}
use pkcs.Ber.Cursor.{At, At-next, At-length, At-rewrite, index-At, Cut, cut}

pub le-big_endian : (n : ℕ) (bs : Bytes) → n ≤ big_endian n bs
le-big_endian n [] = omega arith
le-big_endian n (b ∷ bs) = omega (arith, le-big_endian (n * 256 + b) bs)

-- The loop over the bytes of a length, while the value stays below 2 ^ 31.
pub read_int_run :
    (ber : Bytes) (offset : ℕ) (bs ys : Bytes) (n : ℕ)
    → At ber offset (bs ++ ys)
    → big_endian n bs < 2 ^ 31
    → read_int ber offset (length bs) n ≡ ok (big_endian n bs, offset + length bs)
unfolding read_int
read_int_run ber offset [] ys n at h = ground arith
read_int_run ber offset (b ∷ bs) ys n at h =
    let small : (n * 256 + b) % 2 ^ 32 ≡ n * 256 + b =
      omega (arith, le-big_endian (n * 256 + b) bs) in
    rw (index-At ber offset b (bs ++ ys) at, small)
      (ground (
        arith,
        read_int_run ber (offset + 1) bs ys (n * 256 + b) (At-next ber offset b (bs ++ ys) at),
      ))

-- Four bytes at most, the first of four below 128, write a number below 2 ^ 31.
big_endian-lt :
    (bs : Bytes)
    → All IsByte bs
    → length bs ≤ 4
    → (length bs ≡ 4 → (b : ℕ) (cs : Bytes) → bs ≡ b ∷ cs → b < 128)
    → big_endian 0 bs < 2 ^ 31
big_endian-lt [] h k top = omega arith
big_endian-lt (a ∷ []) h k top = omega arith
big_endian-lt (a ∷ b ∷ []) h k top = omega arith
big_endian-lt (a ∷ b ∷ c ∷ []) h k top = omega arith
big_endian-lt (a ∷ b ∷ c ∷ d ∷ []) h k top = omega (arith, top refl a (b ∷ c ∷ d ∷ []) refl)
big_endian-lt (a ∷ b ∷ c ∷ d ∷ e ∷ bs) h k top = absurd (omega arith)

pub has_leading_zero_run :
    (ber : Bytes) (offset : ℕ) (bs ys : Bytes)
    → At ber offset (bs ++ ys)
    → NoLeadingZero bs
    → has_leading_zero ber offset (length bs) ≡ ok false
unfolding has_leading_zero
has_leading_zero_run ber offset [] ys at h = absurd h
has_leading_zero_run ber offset (b ∷ []) ys at h = rw (index-At ber offset b ys at) (ground arith)
has_leading_zero_run ber offset (b ∷ c ∷ bs) ys at h =
    let at' = At-next ber offset b (c ∷ bs ++ ys) at in
    rw (index-At ber offset b (c ∷ bs ++ ys) at, index-At ber (offset + 1) c (bs ++ ys) at')
      (ground arith)

has_leading_zero-Ensures :
    (ber : Bytes) (offset : ℕ) (bs ys : Bytes)
    → At ber offset (bs ++ ys)
    → 1 ≤ length bs
    → Ensures (λ z. z ≡ false → NoLeadingZero bs) (has_leading_zero ber offset (length bs))
unfolding has_leading_zero
has_leading_zero-Ensures ber offset [] ys at h = absurd (omega arith)
has_leading_zero-Ensures ber offset (b ∷ []) ys at h =
    rw (index-At ber offset b ys at)
      (Ensures-if (b == 0) (λ e. holds (λ f. cc)) (λ e. holds (λ f. ground arith)))
has_leading_zero-Ensures ber offset (b ∷ c ∷ bs) ys at h =
    let at' = At-next ber offset b (c ∷ bs ++ ys) at in
    rw (index-At ber offset b (c ∷ bs ++ ys) at, index-At ber (offset + 1) c (bs ++ ys) at')
      (Ensures-if (b == 0)
        (λ e.
          Ensures-if (suc (suc (length bs)) == 1) (λ f. absurd (ground arith))
            (λ f. holds (λ g g'. ground arith)))
        (λ e. holds (λ f g. ground arith)))

-- What a successful `read_long_length` has read behind the octet `l`.
pub record LongRead (offset l : ℕ) (xs : Bytes) (n start : ℕ) : Type 0 where
  pub octets : Bytes
  pub back : Bytes
  pub whole : xs ≡ octets ++ back
  pub few : length octets ≤ 4
  pub minimal : NoLeadingZero octets
  pub small : n < 2 ^ 31
  pub writes : big_endian 0 octets ≡ n
  pub marks : l ≡ 128 + length octets
  pub ends : start ≡ offset + length octets

top_octet-Ensures :
    (ber : Bytes) (offset n b : ℕ) (xs : Bytes)
    → At ber offset (b ∷ xs)
    → Ensures (λ (u : Unit {0}). n ≡ 4 → b < 128) (top_octet ber offset n)
unfolding top_octet
top_octet-Ensures ber offset n b xs at = rw (index-At ber offset b xs at) (
    Ensures-if (n == 4) (λ e. Ensures-fail_if_end (ltb 0x7f b) _ (λ f. λ g. ground arith))
      (λ e. holds (λ f. absurd (ground arith))))

-- Behind the mark `l` of the long form.
read_long_length-Ensures :
    (ber : Bytes) (offset l b : ℕ) (xs : Bytes)
    → At ber offset (b ∷ xs)
    → 128 < l
    → l < 256
    → Ensures (λ (n, start). LongRead offset l (b ∷ xs) n start) (read_long_length ber offset l)
unfolding read_long_length
read_long_length-Ensures ber offset l b xs at lo hi = rw (bit_and-0x7f l hi) (
    Ensures-fail_if (ltb 4 (l % 128)) _ (λ few.
      Ensures->>= (top_octet-Ensures ber offset (l % 128) b xs at) (λ _ top.
        Ensures-fail_if (ltb (length ber) (offset + l % 128)) _ (λ room.
          behind (cut (l % 128) (b ∷ xs) (ground (arith, At-length ber offset (b ∷ xs) at)))
            (ground arith) top))))
  where
    behind :
        (c : Cut (l % 128) (b ∷ xs))
        → l % 128 ≤ 4
        → (l % 128 ≡ 4 → b < 128)
        → Ensures
            (λ (n, start). LongRead offset l (b ∷ xs) n start)
            (has_leading_zero ber offset (l % 128) >>= λ z.
              fail_if z leading_zero >> read_int ber offset (l % 128) 0)
    behind c few top =
        let at' = At-rewrite ber offset (b ∷ xs) (c.front ++ c.back) c.whole at in
        let front_bytes = All-append_left IsByte c.front c.back at'.bytes in
        let small =
          big_endian-lt c.front front_bytes (omega (arith, c.size))
            (λ e b' cs f. head_lt e b' cs f) in
        rw (← c.size) (
          Ensures->>=
            (has_leading_zero-Ensures ber offset c.front c.back at' (omega (arith, c.size)))
            (λ z minimal. Ensures-fail_if z leading_zero (λ e.
              rw (read_int_run ber offset c.front c.back 0 at' small) (
                holds (record {
                  octets = c.front;
                  back = c.back;
                  whole = c.whole;
                  few = omega (arith, c.size);
                  minimal = minimal e;
                  small = small;
                  writes = refl;
                  marks = omega (arith, c.size);
                  ends = refl;
                })))))
      where
        head_lt : length c.front ≡ 4 → (b' : ℕ) (cs : Bytes) → c.front ≡ b' ∷ cs → b' < 128
        head_lt e b' cs f =
            let same : b ≡ b' = ground (arith, c.whole, f) in
            omega (arith, top (omega (arith, c.size)), same)

-- The octets of a length at the front of `xs`.
pub record LengthRead (offset : ℕ) (xs : Bytes) (len : Length) : Type 0 where
  pub octets : Bytes
  pub back : Bytes
  pub whole : xs ≡ octets ++ back
  pub ends : len.start ≡ offset + length octets
  pub some_octet : 1 ≤ length octets
  pub small : len.value < 2 ^ 31
  pub definite : len.indefinite ≡ false → LengthOf len.value octets
  pub open_form : len.indefinite ≡ true → (octets ≡ 128 ∷ []) × (len.value ≡ 0)

short_read :
    (offset l : ℕ) (xs : Bytes)
    → l < 128
    → LengthRead offset (l ∷ xs) (record { value = l; indefinite = false; start = offset + 1 })
short_read offset l xs h = record {
  octets = l ∷ [];
  back = xs;
  whole = refl;
  ends = refl;
  some_octet = omega arith;
  small = omega arith;
  definite = λ e. short h refl;
  open_form = λ e. cc;
}

open_read :
    (offset l : ℕ) (xs : Bytes)
    → l ≡ 128
    → LengthRead offset (l ∷ xs) (record { value = 0; indefinite = true; start = offset + 1 })
open_read offset l xs h = record {
  octets = l ∷ [];
  back = xs;
  whole = refl;
  ends = refl;
  some_octet = omega arith;
  small = omega arith;
  definite = λ e. cc;
  open_form = λ e. (ap (λ (b : ℕ). b ∷ []) h, refl);
}

long_read :
    (offset l n start : ℕ) (xs : Bytes)
    → LongRead (offset + 1) l xs n start
    → LengthRead offset (l ∷ xs) (record { value = n; indefinite = false; start = start })
long_read offset l n start xs r = record {
  octets = l ∷ r.octets;
  back = r.back;
  whole = ap (λ (bs : Bytes). l ∷ bs) r.whole;
  ends = omega (arith, r.ends);
  some_octet = omega arith;
  small = r.small;
  definite =
      λ e. long r.octets r.few r.minimal r.small r.writes (ap (λ (b : ℕ). b ∷ r.octets) r.marks);
  open_form = λ e. cc;
}

long_form-Ensures :
    (ber : Bytes) (offset l : ℕ) (xs : Bytes)
    → At ber offset (l ∷ xs)
    → (leb 0x80 l && leb (length ber) (offset + 1)) ≡ false
    → 128 < l
    → Ensures
        (λ (n, start). LongRead (offset + 1) l xs n start)
        (read_long_length ber (offset + 1) l)
long_form-Ensures ber offset l [] at inside h =
    absurd (ground (arith, At-length ber offset (l ∷ []) at))
long_form-Ensures ber offset l (b ∷ xs) at inside h =
    read_long_length-Ensures ber (offset + 1) l b xs (At-next ber offset l (b ∷ xs) at) h at.bytes.0

-- `read_length` never panics; if it succeeds, the bytes begin with a length, and that many follow.
pub read_length-Ensures :
    (ber : Bytes) (offset l : ℕ) (xs : Bytes)
    → At ber offset (l ∷ xs)
    → Ensures
        (λ len. LengthRead offset (l ∷ xs) len × (len.start + len.value ≤ length ber))
        (read_length ber offset)
unfolding read_length
read_length-Ensures ber offset l xs at = rw (index-At ber offset l xs at) (
    Ensures-fail_if (leb 0x80 l && leb (length ber) (offset + 1)) _ (λ inside.
      Ensures->>= {P = λ len. LengthRead offset (l ∷ xs) len}
        (Ensures-if (ltb 0x80 l)
          (λ e.
            Ensures->>= (long_form-Ensures ber offset l xs at inside (ltb→lt _ _ e))
              (λ (n, start) r. holds (long_read offset l n start xs r)))
          (λ e.
            Ensures-if (l == 0x80) (λ f. holds (open_read offset l xs (==→eq _ _ f)))
              (λ f. holds (short_read offset l xs (ground arith)))))
        (λ len r. Ensures-fail_if (leb (2 ^ 31) len.value) _ (λ positive.
          Ensures-fail_if (ltb (length ber) (len.start + len.value)) _
            (λ fits. holds (r, ltb_false→le _ _ fits))))))
