-- ===== src/Attributes/Order.antt =====
-- pkcs7.go `attributeSet.Less`: the order of Go's `bytes.Compare`.
use pkcs.Base.{◌≡◌, refl, Bool, true, false, ltb, ◌==◌, if◌then◌else◌, [], ◌∷◌, arith, Bytes}

-- `bytes.Compare(xs, ys) < 0`
unfoldable pub less : Bytes → Bytes → Bool
less [] [] = false
less [] (y ∷ ys) = true
less (x ∷ xs) [] = false
less (x ∷ xs) (y ∷ ys) = if x == y then less xs ys else ltb x y

pub less_irrefl : (xs : Bytes) → less xs xs ≡ false
unfolding less
less_irrefl [] = refl
less_irrefl (x ∷ xs) = ground (arith, less_irrefl xs)

pub less_connected : (xs ys : Bytes) → less xs ys ≡ false → less ys xs ≡ false → xs ≡ ys
unfolding less
less_connected [] [] h k = refl
less_connected [] (y ∷ ys) h k = cc
less_connected (x ∷ xs) [] h k = cc
less_connected (x ∷ xs) (y ∷ ys) h k = ground (arith, less_connected xs ys)

pub less_asymm : (xs ys : Bytes) → less xs ys ≡ true → less ys xs ≡ false
unfolding less
less_asymm [] [] h = refl
less_asymm [] (y ∷ ys) h = refl
less_asymm (x ∷ xs) [] h = cc
less_asymm (x ∷ xs) (y ∷ ys) h = ground (arith, less_asymm xs ys)

-- If z is not below y and y is not below x, then z is not below x.
pub less_trans_false :
    (xs ys zs : Bytes) → less ys xs ≡ false → less zs ys ≡ false → less zs xs ≡ false
unfolding less
less_trans_false [] [] [] h k = refl
less_trans_false [] [] (z ∷ zs) h k = refl
less_trans_false [] (y ∷ ys) [] h k = cc
less_trans_false [] (y ∷ ys) (z ∷ zs) h k = refl
less_trans_false (x ∷ xs) [] zs h k = cc
less_trans_false (x ∷ xs) (y ∷ ys) [] h k = cc
less_trans_false (x ∷ xs) (y ∷ ys) (z ∷ zs) h k = ground (arith, less_trans_false xs ys zs)
