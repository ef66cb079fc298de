-- ===== src/Attributes/Sorted.antt =====
-- What Go's `sort.Sort` does with the attributes, and that it leaves no choice of the keys.
use mathlib.Core.Logic.Or
use mathlib.Core.List.{Mem, Perm, mem-cons, mem-cons_self}
use mathlib.Core.List.Perm
use pkcs.Base.{◌≡◌, sym, subst, false, List, [], ◌∷◌, map, Bytes}
use pkcs.Attributes.Order.{less, less_irrefl, less_connected}
use pkcs.Attributes.Marshal.{SortableAttribute}

-- No key is below one that stands before it.
abbrev pub IsSorted : List Bytes → Type 0
IsSorted [] = Unit {0}
IsSorted (x ∷ xs) = ((y : Bytes) → Mem y xs → less y x ≡ false) × IsSorted xs

abbrev pub keys : List SortableAttribute → List Bytes
keys = map (λ (s : SortableAttribute). s.sort_key)

-- `sort.Sort` with `attributeSet`: it permutes the attributes, and the keys come out sorted. It need
-- not keep the order of attributes with one key.
pub record IsSort (sort : List SortableAttribute → List SortableAttribute) : Type 0 where
  pub permutes : (xs : List SortableAttribute) → Perm (sort xs) xs
  pub sorts : (xs : List SortableAttribute) → IsSorted (keys (sort xs))

below_all : (x y : Bytes) (ys : List Bytes) → IsSorted (y ∷ ys) → Mem x (y ∷ ys) → less x y ≡ false
below_all x y ys s m = Or.elim (hlevel) (mem-cons.0 m) (λ e. rw e (less_irrefl y)) (λ k. s.0 x k)

-- Sorted lists of the same keys are equal.
pub IsSorted-unique : (xs ys : List Bytes) → Perm xs ys → IsSorted xs → IsSorted ys → xs ≡ ys
IsSorted-unique [] ys p s t = sym (Perm.eq-nil (Perm.symm p))
IsSorted-unique (x ∷ xs) [] p s t = Perm.eq-nil p
IsSorted-unique (x ∷ xs) (y ∷ ys) p s t =
    let x_in = below_all x y ys t ((Perm.mem_iff p).0 mem-cons_self) in
    let y_in = below_all y x xs s ((Perm.mem_iff p).1 mem-cons_self) in
    let e : x ≡ y = less_connected x y x_in y_in in
    let q = Perm.cons_inv (subst (λ (z : Bytes). Perm (x ∷ xs) (z ∷ ys)) (sym e) p) in
    let rest = IsSorted-unique xs ys q s.1 t.1 in cc
