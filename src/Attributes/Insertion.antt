-- ===== src/Attributes/Insertion.antt =====
-- A sorting by insertion, which does what is asked of Go's `sort.Sort`.
use mathlib.Core.Logic.Or
use mathlib.Core.List.{Perm, mem-cons, not-mem-nil}
use mathlib.Core.List.Perm
use pkcs.Base.{if◌then◌else◌, List, [], ◌∷◌, Bool-cases, inl, inr}
use pkcs.Attributes.Order.{less, less_asymm, less_trans_false}
use pkcs.Attributes.Marshal.{SortableAttribute}
use pkcs.Attributes.Sorted.{IsSort, IsSorted, keys}

abbrev pub insert_sorted : SortableAttribute → List SortableAttribute → List SortableAttribute
insert_sorted s [] = s ∷ []
insert_sorted s (x ∷ xs) = if less s.sort_key x.sort_key then s ∷ x ∷ xs else x ∷ insert_sorted s xs

abbrev pub insertion_sort : List SortableAttribute → List SortableAttribute
insertion_sort [] = []
insertion_sort (x ∷ xs) = insert_sorted x (insertion_sort xs)

insert_sorted-perm :
    (s : SortableAttribute) (xs : List SortableAttribute) → Perm (insert_sorted s xs) (s ∷ xs)
insert_sorted-perm s [] = Perm.refl (s ∷ [])
insert_sorted-perm s (x ∷ xs) = elim (Bool-cases (less s.sort_key x.sort_key)) [
  | inl before ↦ rw before (Perm.refl (s ∷ x ∷ xs))
  | inr behind ↦ rw behind (Perm.trans (Perm.cons x (insert_sorted-perm s xs)) (Perm.swap s x xs))
]

insertion_sort-perm : (xs : List SortableAttribute) → Perm (insertion_sort xs) xs
insertion_sort-perm [] = Perm.refl []
insertion_sort-perm (x ∷ xs) =
    Perm.trans (insert_sorted-perm x (insertion_sort xs)) (Perm.cons x (insertion_sort-perm xs))

keys_perm : {xs ys : List SortableAttribute} → Perm xs ys → Perm (keys xs) (keys ys)
keys_perm p = Perm.map (λ (s : SortableAttribute). s.sort_key) p

insert_sorted-IsSorted :
    (s : SortableAttribute) (xs : List SortableAttribute)
    → IsSorted (keys xs)
    → IsSorted (keys (insert_sorted s xs))
insert_sorted-IsSorted s [] h = ((λ y m. absurd (not-mem-nil m)), tt)
insert_sorted-IsSorted s (x ∷ xs) h = elim (Bool-cases (less s.sort_key x.sort_key)) [
  | inl before ↦
      let behind = less_asymm s.sort_key x.sort_key before in
      rw before (
        (λ y m.
            Or.elim (hlevel) (mem-cons.0 m) (λ e. rw e behind)
              (λ k. less_trans_false s.sort_key x.sort_key y behind (h.0 y k))),
        h,
      )
  | inr behind ↦ rw behind (
    (λ y m.
        Or.elim (hlevel) (mem-cons.0 ((Perm.mem_iff (keys_perm (insert_sorted-perm s xs))).0 m))
          (λ e. rw e behind) (λ k. h.0 y k)),
    insert_sorted-IsSorted s xs h.1,
  )
]

insertion_sort-IsSorted : (xs : List SortableAttribute) → IsSorted (keys (insertion_sort xs))
insertion_sort-IsSorted [] = tt
insertion_sort-IsSorted (x ∷ xs) =
    insert_sorted-IsSorted x (insertion_sort xs) (insertion_sort-IsSorted xs)

pub insertion_sort-IsSort : IsSort insertion_sort
insertion_sort-IsSort = record { permutes = insertion_sort-perm; sorts = insertion_sort-IsSorted }
