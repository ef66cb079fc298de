-- ===== src/Ber/LengthOctets.antt =====
-- ber.go, `encodeLength` and what it calls: the octets that it writes are those of the grammar.
use mathlib.Core.Logic.{dif_pos, dif_neg}
use mathlib.Core.WellFounded.{Acc}
use native.Mathlib.Bridge.{le_prop}
use native.Mathlib.Decide.{dec_lt}
use native.Mathlib.Nat.{
  pow-le-pow_right, div-eq_of_lt, le-div_iff_mul-le, div-lt_iff_lt-mul, mod-eq_of_lt,
}
use pkcs.Base.{
  ℕ, zero, suc, ◌+◌, ◌-◌, ◌*◌, ◌/◌, ◌%◌, ◌^◌, ◌≤◌, ◌<◌, ◌≡◌, ◌≢◌, inl, inr, refl, sym, ap, ◌∙◌, [],
  ◌∷◌, ◌++◌, append_assoc, append-nil, bit_or,
}
use pkcs.Base.{leb, Bool-cases, leb→le, leb_false→lt, length, Bytes, IsByte, All, arith}
use pkcs.Base.Bits.{bit_or-0x80}
use pkcs.Base.BigEndian.{
  weight, weight-suc, weight_pos, low_octets, length-low_octets, low_octets-IsByte,
  big_endian-low_octets,
}
use pkcs.Base.Loops.{lt_wf}
use pkcs.Ber.Encode.{
  length_length_loop, length_length, marshal_long_length_loop, marshal_long_length, encode_length,
}
use pkcs.Ber.Grammar.{LengthOf, short, long, big_endian, NoLeadingZero}

-- How many octets more than one the number takes.
record Octets (i : ℕ) (n result : ℕ) : Type 0 where
  more : ℕ
  result_eq : result ≡ n + more
  below : i < weight (suc more)
  above : 0 < i → weight more ≤ i

one_octet : (i n : ℕ) → i ≤ 255 → Octets i n n
one_octet i n h = record {
  more = 0;
  result_eq = omega arith;
  below = omega arith;
  above = λ p. omega arith;
}

octet_more : (i n result : ℕ) → 255 < i → Octets (i / 256) (n + 1) result → Octets i n result
octet_more i n result h o = record {
  more = suc o.more;
  result_eq = omega (arith, o.result_eq);
  below = omega (arith, o.below, weight-suc (suc o.more));
  above = λ p. omega (arith, o.above (omega arith), weight-suc o.more);
}

loop-Octets : (i n : ℕ) (w : Acc ◌<◌ i) → Octets i n (length_length_loop i n w)
unfolding length_length_loop
loop-Octets i n (Acc.intro _ smaller) = elim (dec_lt 255 i) [
  | yes more ↦
      rw (dif_pos (dec_lt 255 i) le_prop more)
        (octet_more i n _ more (loop-Octets (i / 256) (n + 1) (smaller (i / 256) (omega arith))))
  | no done ↦ rw (dif_neg (dec_lt 255 i) done) (one_octet i n (omega arith))
]

marshal_long_length_loop-low_octets :
    (out : Bytes) (i k : ℕ) → marshal_long_length_loop out i k ≡ out ++ low_octets i k
unfolding marshal_long_length_loop
marshal_long_length_loop-low_octets out i zero = sym (append-nil out)
marshal_long_length_loop-low_octets out i (suc k) =
    marshal_long_length_loop-low_octets (out ++ (i / weight k % 256) ∷ []) i k
    ∙ append_assoc out ((i / weight k % 256) ∷ []) (low_octets i k)

NoLeadingZero-cons : (b : ℕ) (bs : Bytes) → b ≢ 0 → NoLeadingZero (b ∷ bs)
NoLeadingZero-cons b [] h = h
NoLeadingZero-cons b (c ∷ bs) h = λ e. absurd (h e)

no_leading_zero :
    (i k : ℕ) → i < weight (suc k) → weight k ≤ i → NoLeadingZero (low_octets i (suc k))
no_leading_zero i k below above =
    let lo : 1 ≤ i / weight k = (le-div_iff_mul-le (weight_pos k)).1 (omega arith) in
    let hi : i / weight k < 256 =
      (div-lt_iff_lt-mul (weight_pos k)).1 (omega (arith, weight-suc k)) in
    NoLeadingZero-cons _ (low_octets i k) (omega arith)

weight_mono : (j k : ℕ) → j ≤ k → weight j ≤ weight k
weight_mono j k h = pow-le-pow_right (omega arith) (omega arith)

length_length-Octets : (i : ℕ) → Octets i 1 (length_length i)
unfolding length_length
length_length-Octets i = loop-Octets i 1 (lt_wf.apply i)

-- `lengthLength` counts the digits in base 256: no fewer would do.
pub length_length_digits :
    (i : ℕ)
    → (1 ≤ length_length i)
      × (i < 2 ^ (length_length i * 8))
      × (0 < i → 2 ^ ((length_length i - 1) * 8) ≤ i)
length_length_digits i =
    let o = length_length-Octets i in
    let e : length_length i ≡ suc o.more = omega (arith, o.result_eq) in
    let e' : length_length i - 1 ≡ o.more = omega arith in
    (omega arith, rw e o.below, λ p. rw e' (o.above p))

-- What `marshalLongLength` writes.
pub record LongOctets (i : ℕ) : Type 0 where
  pub octets : Bytes
  pub writes : big_endian 0 octets ≡ i
  pub few : length octets ≤ 4
  pub count : length octets ≡ length_length i
  pub minimal : NoLeadingZero octets
  pub bytes : All IsByte octets
  pub marshals : (out : Bytes) → marshal_long_length out i ≡ out ++ octets

pub long_octets : (i : ℕ) → 0 < i → i < 2 ^ 31 → LongOctets i
unfolding marshal_long_length
long_octets i pos small =
    let o = length_length-Octets i in
    let k = o.more in
    let e : length_length i ≡ suc k = omega (arith, o.result_eq) in
    let above : weight k ≤ i = o.above pos in
    let top : i / weight (suc k) ≡ 0 = div-eq_of_lt o.below in
    record {
      octets = low_octets i (suc k);
      writes =
          ap (λ (n : ℕ). big_endian n (low_octets i (suc k))) (sym top)
          ∙ big_endian-low_octets i (suc k);
      few = elim (Bool-cases (leb 4 k)) [
        | inl large ↦ absurd (omega (arith, weight_mono 4 k (leb→le 4 k large)))
        | inr few ↦ omega (arith, length-low_octets i (suc k), leb_false→lt 4 k few)
      ];
      count = omega (arith, length-low_octets i (suc k));
      minimal = no_leading_zero i k o.below above;
      bytes = low_octets-IsByte i (suc k);
      marshals = λ out. rw e (marshal_long_length_loop-low_octets out i (suc k));
    }

-- `encodeLength` appends the octets of a length, in the shorter form where there is one.
pub record Encoded (n : ℕ) : Type 0 where
  pub octets : Bytes
  pub form : LengthOf n octets
  pub bytes : All IsByte octets
  pub short_form : n < 128 → octets ≡ n ∷ []
  pub appends : (out : Bytes) → encode_length out n ≡ out ++ octets

pub encoded : (n : ℕ) → n < 2 ^ 31 → Encoded n
unfolding encode_length
encoded n small = elim (Bool-cases (leb 128 n)) [
  | inl large ↦
      let lo = leb→le 128 n large in
      let l = long_octets n (omega arith) small in
      let few = l.few in
      let mark : bit_or 0x80 (length_length n % 256) ≡ 128 + length l.octets = omega (
        arith,
        ap (λ (m : ℕ). bit_or 0x80 m) (low_byte n l),
        bit_or-0x80 (length l.octets) (omega arith),
      ) in
      record {
        octets = (128 + length l.octets) ∷ l.octets;
        form = long l.octets few l.minimal small l.writes refl;
        bytes = (omega arith, l.bytes);
        short_form = λ h. absurd (omega arith);
        appends = λ out.
            rw (large, mark, l.marshals (out ++ (128 + length l.octets) ∷ []))
              (append_assoc out ((128 + length l.octets) ∷ []) l.octets);
      }
  | inr few ↦
      let hi = leb_false→lt 128 n few in
      record {
        octets = n ∷ [];
        form = short hi refl;
        bytes = (omega arith, tt);
        short_form = λ h. refl;
        appends = λ out. rw (few, mod-eq_of_lt {n = n} {m = 256} (omega arith));
      }
]
  where
    low_byte : (n : ℕ) (l : LongOctets n) → length_length n % 256 ≡ length l.octets
    low_byte n l = omega (arith, l.count, l.few)

pub encode_length-append : (out : Bytes) (n : ℕ) → encode_length out n ≡ out ++ encode_length [] n
unfolding encode_length marshal_long_length
encode_length-append out n =
    let mark = bit_or 0x80 (length_length n % 256) in
    let rest = low_octets n (length_length n) in
    elim (Bool-cases (leb 128 n)) [
      | inl large ↦
          rw
            (
              large,
              marshal_long_length_loop-low_octets (out ++ mark ∷ []) n (length_length n),
              marshal_long_length_loop-low_octets (mark ∷ []) n (length_length n),
            )
            (append_assoc out (mark ∷ []) rest)
      | inr few ↦ rw few
    ]

pub LengthOf-length_le : (n : ℕ) (ls : Bytes) → LengthOf n ls → length ls ≤ 5
LengthOf-length_le n ls (short h e) = omega (arith, ap length e)
LengthOf-length_le n ls (long bs few minimal small writes e) = omega (arith, ap length e)
