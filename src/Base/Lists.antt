-- ===== src/Base/Lists.antt =====
-- Lists measured and indexed by native numbers, and lists of bytes.
use Prim.Native.Nat.{ℕ, zero, suc, ◌+◌, ◌-◌, ◌≤◌, ◌<◌}
use mathlib.Core.Path.{◌≡◌, refl, sym, ap, ◌∙◌}
use mathlib.Core.List.{List, [], ◌∷◌, ◌++◌, append_assoc}
use mathlib.Core.Option.{Option, none, some}
use native.Mathlib.Omega.{arith}

module _ {ℓ} {A : Type ℓ} where
  abbrev pub length : List A → ℕ
  length [] = 0
  length (x ∷ xs) = suc (length xs)

  abbrev pub get_elem? : List A → ℕ → Option A
  get_elem? [] i = none
  get_elem? (x ∷ xs) zero = some x
  get_elem? (x ∷ xs) (suc i) = get_elem? xs i

  abbrev pub take : ℕ → List A → List A
  take zero xs = []
  take (suc n) [] = []
  take (suc n) (x ∷ xs) = x ∷ take n xs

  abbrev pub drop : ℕ → List A → List A
  drop zero xs = xs
  drop (suc n) [] = []
  drop (suc n) (x ∷ xs) = drop n xs

  abbrev pub replicate : ℕ → A → List A
  replicate zero a = []
  replicate (suc n) a = a ∷ replicate n a

  abbrev pub All {κ} : (A → Type κ) → List A → Type κ
  All P [] = Unit {κ}
  All P (x ∷ xs) = P x × All P xs

module _ {ℓ} {A : Type ℓ} where
  pub length-append : (xs ys : List A) → length (xs ++ ys) ≡ length xs + length ys
  length-append [] ys = omega arith
  length-append (x ∷ xs) ys = omega (arith, length-append xs ys)

  pub length-replicate : (n : ℕ) (a : A) → length (replicate n a) ≡ n
  length-replicate zero a = refl
  length-replicate (suc n) a = ap suc (length-replicate n a)

  pub take_append : (xs ys : List A) → take (length xs) (xs ++ ys) ≡ xs
  take_append [] ys = refl
  take_append (x ∷ xs) ys = ap (λ (t : List A). x ∷ t) (take_append xs ys)

  pub drop_append : (xs ys : List A) → drop (length xs) (xs ++ ys) ≡ ys
  drop_append [] ys = refl
  drop_append (x ∷ xs) ys = drop_append xs ys

  pub get_elem?_append : (xs ys : List A) (a : A) → get_elem? (xs ++ a ∷ ys) (length xs) ≡ some a
  get_elem?_append [] ys a = refl
  get_elem?_append (x ∷ xs) ys a = get_elem?_append xs ys a

  pub take-append-drop : (n : ℕ) (xs : List A) → take n xs ++ drop n xs ≡ xs
  take-append-drop zero xs = refl
  take-append-drop (suc n) [] = refl
  take-append-drop (suc n) (x ∷ xs) = ap (λ (t : List A). x ∷ t) (take-append-drop n xs)

  pub length-take : (n : ℕ) (xs : List A) → n ≤ length xs → length (take n xs) ≡ n
  length-take zero xs h = refl
  length-take (suc n) [] h = absurd (omega arith)
  length-take (suc n) (x ∷ xs) h = ap suc (length-take n xs (omega arith))

  pub length-drop : (n : ℕ) (xs : List A) → length (drop n xs) ≡ length xs - n
  length-drop zero xs = omega arith
  length-drop (suc n) [] = omega arith
  length-drop (suc n) (x ∷ xs) = omega (arith, length-drop n xs)

  pub All_mono {κ κ'} :
      {P : A → Type κ} {Q : A → Type κ'}
      → ((a : A) → P a → Q a)
      → (xs : List A) → All P xs
      → All Q xs
  All_mono f [] h = tt
  All_mono f (x ∷ xs) h = (f x h.0, All_mono f xs h.1)

  module _ {κ} (P : A → Type κ) where
    pub All-append : (xs ys : List A) → All P xs → All P ys → All P (xs ++ ys)
    All-append [] ys h k = k
    All-append (x ∷ xs) ys h k = (h.0, All-append xs ys h.1 k)

    pub All-append_left : (xs ys : List A) → All P (xs ++ ys) → All P xs
    All-append_left [] ys h = tt
    All-append_left (x ∷ xs) ys h = (h.0, All-append_left xs ys h.1)

    pub All-append_right : (xs ys : List A) → All P (xs ++ ys) → All P ys
    All-append_right [] ys h = h
    All-append_right (x ∷ xs) ys h = All-append_right xs ys h.1

abbrev pub IsByte : ℕ → Type 0
IsByte b = b < 256

abbrev pub Bytes : Type 0
Bytes = List ℕ

pub length-append_bytes : (xs ys : Bytes) → length (xs ++ ys) ≡ length xs + length ys
length-append_bytes = length-append

-- For `omega`, on byte lists.
pub ruleset lengths = (arith, length-append_bytes)

-- Bytes, cut behind the first n.
pub record Cut (n : ℕ) (xs : Bytes) : Type 0 where
  pub front : Bytes
  pub back : Bytes
  pub whole : xs ≡ front ++ back
  pub size : length front ≡ n

pub cut : (n : ℕ) (xs : Bytes) → n ≤ length xs → Cut n xs
cut n xs h = record {
  front = take n xs;
  back = drop n xs;
  whole = sym (take-append-drop n xs);
  size = length-take n xs h;
}

-- `bs[low:high]`, for low ≤ high ≤ len(bs)
abbrev pub slice : Bytes → ℕ → ℕ → Bytes
slice bs low high = take (high - low) (drop low bs)

-- `copy(bs[low:], new)`, where `new` fits.
abbrev pub splice : Bytes → ℕ → Bytes → Bytes
splice bs low new = take low bs ++ (new ++ drop (low + length new) bs)

pub slice_parts :
    (xs ys zs : Bytes) (low high : ℕ)
    → low ≡ length xs
    → high ≡ length xs + length ys
    → slice (xs ++ (ys ++ zs)) low high ≡ ys
slice_parts xs ys zs low high e f =
    let gap : high - low ≡ length ys = omega arith in
    rw (gap, e, drop_append xs (ys ++ zs), take_append ys zs)

pub splice_parts :
    (xs old new ys : Bytes) (low : ℕ)
    → low ≡ length xs
    → length new ≡ length old
    → splice (xs ++ (old ++ ys)) low new ≡ xs ++ (new ++ ys)
splice_parts xs old new ys low e f =
    let end : low + length new ≡ length (xs ++ old) = omega (arith, length-append xs old) in
    let behind : drop (length (xs ++ old)) (xs ++ (old ++ ys)) ≡ ys =
      ap (λ (t : Bytes). drop (length (xs ++ old)) t) (sym (append_assoc xs old ys))
      ∙ drop_append (xs ++ old) ys in
    rw (end, behind, e, take_append xs (old ++ ys))
