-- ===== src/Base/Bits.antt =====
-- The masks of the program on one byte as arithmetic, each checked over a table of its values.
use Prim.Native.Nat.{ℕ, zero, suc, ◌+◌, ◌*◌, ◌/◌, ◌%◌, ◌<◌, bit_and, bit_or}
use mathlib.Core.Path.{◌≡◌, refl}
use mathlib.Core.Bool.{Bool, false, ◌||◌, not}
use native.Mathlib.Omega.{arith}
use pkcs.Base.Tests.{◌==◌}

module _ (mask formula : ℕ → ℕ) where
  -- Is there a value below the bound at which the two differ?
  differ_below : ℕ → Bool
  differ_below zero = false
  differ_below (suc bound) = differ_below bound || not (mask bound == formula bound)

  eq_of_table : (bound : ℕ) → differ_below bound ≡ false → (b : ℕ) → b < bound → mask b ≡ formula b
  unfolding differ_below
  eq_of_table zero same b below = absurd (omega arith)
  eq_of_table (suc bound) same b below = ground (arith, eq_of_table bound (ground arith) b)

pub bit_and-0x1f : (b : ℕ) → b < 256 → bit_and b 0x1f ≡ b % 32
unfolding differ_below
bit_and-0x1f = eq_of_table (λ b. bit_and b 0x1f) (λ b. b % 32) 256 refl

pub bit_and-0x20 : (b : ℕ) → b < 256 → bit_and b 0x20 ≡ b / 32 % 2 * 32
unfolding differ_below
bit_and-0x20 = eq_of_table (λ b. bit_and b 0x20) (λ b. b / 32 % 2 * 32) 256 refl

pub bit_and-0x7f : (b : ℕ) → b < 256 → bit_and b 0x7f ≡ b % 128
unfolding differ_below
bit_and-0x7f = eq_of_table (λ b. bit_and b 0x7f) (λ b. b % 128) 256 refl

pub bit_or-0x80 : (b : ℕ) → b < 128 → bit_or 0x80 b ≡ 128 + b
unfolding differ_below
bit_or-0x80 = eq_of_table (λ b. bit_or 0x80 b) (λ b. 128 + b) 128 refl
