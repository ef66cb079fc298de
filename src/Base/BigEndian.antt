-- ===== src/Base/BigEndian.antt =====
-- Numbers written in base 256, highest octet first.
use native.Mathlib.Nat.{one-le-pow, div-div-eq-div-mul, div-eq_of_lt, div-eq_of_lt-le}
use native.Mathlib.Numerals.{towards_suc}
use Prim.Native.Nat.{ℕ, zero, suc, ◌+◌, ◌*◌, ◌/◌, ◌%◌, ◌^◌, ◌≤◌, ◌<◌}
use mathlib.Core.Path.{◌≡◌, refl, sym, ap, ◌∙◌}
use mathlib.Core.List.{[], ◌∷◌}
use native.Mathlib.Omega.{arith}
use pkcs.Base.Lists.{length, Bytes, IsByte, All}

-- The number that `bs` writes, behind the digits of `n`.
abbrev pub big_endian : ℕ → Bytes → ℕ
big_endian n [] = n
big_endian n (b ∷ bs) = big_endian (n * 256 + b) bs

-- `1 << (k * 8)`, the weight of the octet with k octets behind it.
abbrev pub weight : ℕ → ℕ
weight k = 2 ^ (k * 8)

pub weight-suc : (k : ℕ) → weight (suc k) ≡ weight k * 256
weight-suc k = let e : suc k * 8 ≡ k * 8 + 8 = omega arith in rw e (simp towards_suc (omega arith))

pub weight_pos : (k : ℕ) → 1 ≤ weight k
weight_pos k = one-le-pow (k * 8) 2 (omega arith)

-- The k lowest octets of a number, highest first.
abbrev pub low_octets : ℕ → ℕ → Bytes
low_octets i zero = []
low_octets i (suc k) = (i / weight k % 256) ∷ low_octets i k

pub length-low_octets : (i k : ℕ) → length (low_octets i k) ≡ k
length-low_octets i zero = refl
length-low_octets i (suc k) = ap suc (length-low_octets i k)

pub low_octets-IsByte : (i k : ℕ) → All IsByte (low_octets i k)
low_octets-IsByte i zero = tt
low_octets-IsByte i (suc k) = (omega arith, low_octets-IsByte i k)

div-weight-suc : (i k : ℕ) → i / weight (suc k) ≡ i / weight k / 256
div-weight-suc i k = rw (weight-suc k) (sym (div-div-eq-div-mul i (weight k) 256))

-- The octets write the number, behind the part of it that is higher.
pub big_endian-low_octets : (i k : ℕ) → big_endian (i / weight k) (low_octets i k) ≡ i
big_endian-low_octets i zero = omega arith
big_endian-low_octets i (suc k) =
    let digit : i / weight (suc k) * 256 + i / weight k % 256 ≡ i / weight k =
      omega (arith, div-weight-suc i k) in
    ap (λ (n : ℕ). big_endian n (low_octets i k)) digit ∙ big_endian-low_octets i k

-- A number of at most k octets.
pub big_endian-low_octets_all : (i k : ℕ) → i < weight k → big_endian 0 (low_octets i k) ≡ i
big_endian-low_octets_all i k h =
    let top : i / weight k ≡ 0 = div-eq_of_lt h in
    ap (λ (n : ℕ). big_endian n (low_octets i k)) (sym top) ∙ big_endian-low_octets i k

mul_mono : (a c w : ℕ) → a ≤ c → a * w ≤ c * w
mul_mono a c w h = grind arith

-- The value lies between those of the digits before, filled with zeros and with ones.
pub big_endian_bounds :
    (n : ℕ) (bs : Bytes)
    → All IsByte bs
    → (n * weight (length bs) ≤ big_endian n bs) × (big_endian n bs < (n + 1) * weight (length bs))
big_endian_bounds n [] h = (omega arith, omega arith)
big_endian_bounds n (b ∷ bs) h =
    let (lo, hi) = big_endian_bounds (n * 256 + b) bs h.1 in
    let w = ap (λ (t : ℕ). n * t) (weight-suc (length bs)) in
    let digit = mul_mono (b + 1) 256 (weight (length bs)) (omega arith) in
    (omega (arith, lo), omega (arith, hi, weight-suc (length bs)))

pub big_endian-lt-weight : (bs : Bytes) → All IsByte bs → big_endian 0 bs < weight (length bs)
big_endian-lt-weight bs h = omega (arith, (big_endian_bounds 0 bs h).1)

div-big_endian : (n : ℕ) (bs : Bytes) → All IsByte bs → big_endian n bs / weight (length bs) ≡ n
div-big_endian n bs h =
    let (lo, hi) = big_endian_bounds n bs h in
    div-eq_of_lt-le (weight (length bs)) lo (omega (arith, hi))

-- Writing the value gives back the octets.
pub low_octets-big_endian :
    (n : ℕ) (bs : Bytes) → All IsByte bs → low_octets (big_endian n bs) (length bs) ≡ bs
low_octets-big_endian n [] h = refl
low_octets-big_endian n (b ∷ bs) h =
    let value = n * 256 + b in
    let first : big_endian value bs / weight (length bs) % 256 ≡ b =
      omega (arith, div-big_endian value bs h.1) in
    let rest = low_octets-big_endian value bs h.1 in cc
