-- ===== src/Subtle.antt =====
-- The functions of Go's crypto/subtle that the program calls, on non-negative numbers and on byte
-- slices, by what they return: 1 for true and 0 for false.
use pkcs.Base.{
  ℕ, ◌≡◌, refl, [], ◌∷◌, Bool, true, false, ◌&&◌, leb, ◌==◌, if◌then◌else◌, Bytes, arith,
}

abbrev pub bit : Bool → ℕ
bit true = 1
bit false = 0

abbrev pub constant_time_less_or_eq : ℕ → ℕ → ℕ
constant_time_less_or_eq x y = bit (leb x y)

abbrev pub constant_time_byte_eq : ℕ → ℕ → ℕ
constant_time_byte_eq x y = bit (x == y)

abbrev pub constant_time_select : ℕ → ℕ → ℕ → ℕ
constant_time_select v x y = if v == 1 then x else y

-- Also `bytes.Equal`.
unfoldable pub bytes_equal : Bytes → Bytes → Bool
bytes_equal [] [] = true
bytes_equal [] (y ∷ ys) = false
bytes_equal (x ∷ xs) [] = false
bytes_equal (x ∷ xs) (y ∷ ys) = x == y && bytes_equal xs ys

abbrev pub constant_time_compare : Bytes → Bytes → ℕ
constant_time_compare xs ys = bit (bytes_equal xs ys)

pub bytes_equal→eq : (xs ys : Bytes) → bytes_equal xs ys ≡ true → xs ≡ ys
unfolding bytes_equal
bytes_equal→eq [] [] h = refl
bytes_equal→eq [] (y ∷ ys) h = cc
bytes_equal→eq (x ∷ xs) [] h = cc
bytes_equal→eq (x ∷ xs) (y ∷ ys) h = ground (arith, bytes_equal→eq xs ys)

pub bytes_equal_refl : (xs : Bytes) → bytes_equal xs xs ≡ true
unfolding bytes_equal
bytes_equal_refl [] = refl
bytes_equal_refl (x ∷ xs) = ground (arith, bytes_equal_refl xs)
