-- ===== src/Base/Xor.antt =====
-- Exclusive or at every width: it undoes itself, and stays below a power of two.
use Prim.Native.Nat.{
  ℕ, zero, suc, ◌+◌, ◌*◌, ◌/◌, ◌%◌, ◌^◌, ◌≤◌, ◌<◌, bit_xor, bit_xor-bitwise, digits, differ,
}
use mathlib.Core.Path.{◌≡◌, refl, ap, ◌∙◌}
use native.Mathlib.Nat.{pow-suc}
use native.Mathlib.Omega.{arith}

-- The digit recursion that the operation stands for, with `count` digits to go.
abbrev xor_digits : ℕ → ℕ → ℕ → ℕ
xor_digits count x y = digits (λ rest. rest) differ count x y

-- Any two counts that reach the end of `x` give the same number.
xor_digits-same :
    (x y c d : ℕ) (bound : ℕ) → x ≤ bound → x ≤ c → x ≤ d → xor_digits c x y ≡ xor_digits d x y
xor_digits-same zero y zero zero bound r p q = refl
xor_digits-same zero y zero (suc d) bound r p q = refl
xor_digits-same zero y (suc c) zero bound r p q = refl
xor_digits-same zero y (suc c) (suc d) bound r p q = refl
xor_digits-same (suc x) y zero d bound r p q = absurd (omega arith)
xor_digits-same (suc x) y (suc c) zero bound r p q = absurd (omega arith)
xor_digits-same (suc x) y (suc c) (suc d) zero r p q = absurd (omega arith)
xor_digits-same (suc x) y (suc c) (suc d) (suc bound) r p q =
    let half = suc x / 2 in
    ap (λ (n : ℕ). n * 2 + differ (suc x % 2) (y % 2))
      (xor_digits-same half (y / 2) c d bound (omega arith) (omega arith) (omega arith))

-- The lowest digit.
pub bit_xor_digit : (x y : ℕ) → bit_xor x y ≡ bit_xor (x / 2) (y / 2) * 2 + differ (x % 2) (y % 2)
bit_xor_digit zero y = omega (arith, bit_xor-bitwise zero y, bit_xor-bitwise (zero / 2) (y / 2))
bit_xor_digit (suc x) y =
    let half = suc x / 2 in
    let same = xor_digits-same half (y / 2) x half x (omega arith) (omega arith) (omega arith) in
    omega (arith, bit_xor-bitwise (suc x) y, bit_xor-bitwise half (y / 2), same)

differ_digit : (a b : ℕ) → a < 2 → b < 2 → (differ a b < 2) × (differ (differ a b) b ≡ a)
differ_digit zero zero p q = (omega arith, refl)
differ_digit zero (suc zero) p q = (omega arith, refl)
differ_digit zero (suc (suc b)) p q = absurd (omega arith)
differ_digit (suc zero) zero p q = (omega arith, refl)
differ_digit (suc zero) (suc zero) p q = (omega arith, refl)
differ_digit (suc zero) (suc (suc b)) p q = absurd (omega arith)
differ_digit (suc (suc a)) b p q = absurd (omega arith)

-- Numbers of k digits.
pub bit_xor-lt : (k x y : ℕ) → x < 2 ^ k → y < 2 ^ k → bit_xor x y < 2 ^ k
bit_xor-lt zero zero zero p q = omega arith
bit_xor-lt zero zero (suc y) p q = absurd (omega arith)
bit_xor-lt zero (suc x) y p q = absurd (omega arith)
bit_xor-lt (suc k) x y p q =
    let power = pow-suc 2 k in
    omega (
      arith,
      bit_xor_digit x y,
      bit_xor-lt k (x / 2) (y / 2) (omega arith) (omega arith),
      differ_digit (x % 2) (y % 2) (omega arith) (omega arith),
    )

-- Exclusive or with the same number twice gives back the first.
pub bit_xor_cancel : (k x y : ℕ) → x < 2 ^ k → y < 2 ^ k → bit_xor (bit_xor x y) y ≡ x
bit_xor_cancel zero zero zero p q = refl
bit_xor_cancel zero zero (suc y) p q = absurd (omega arith)
bit_xor_cancel zero (suc x) y p q = absurd (omega arith)
bit_xor_cancel (suc k) x y p q =
    let power = pow-suc 2 k in
    let once = bit_xor_digit x y in
    let (small, undone) = differ_digit (x % 2) (y % 2) (omega arith) (omega arith) in
    let upper : bit_xor x y / 2 ≡ bit_xor (x / 2) (y / 2) = omega arith in
    let lowest : bit_xor x y % 2 ≡ differ (x % 2) (y % 2) = omega arith in
    let rest : bit_xor (bit_xor x y / 2) (y / 2) ≡ x / 2 =
      ap (λ (n : ℕ). bit_xor n (y / 2)) upper
      ∙ bit_xor_cancel k (x / 2) (y / 2) (omega arith) (omega arith) in
    let digit : differ (bit_xor x y % 2) (y % 2) ≡ x % 2 =
      ap (λ (n : ℕ). differ n (y % 2)) lowest ∙ undone in
    omega (arith, bit_xor_digit (bit_xor x y) y, rest, digit)
