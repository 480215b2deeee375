-- ===== src/Tests/Sorts.antt =====
-- A sorter.
use mathlib.Core.List.Perm
use wc3ts.Prelude.{
  ◌≡◌, Bool, false, List, [], ◌∷◌, Perm, All, All-mono, Bool-cases, inl, inr, if◌then◌else◌,
}
use wc3ts.Sorting.{IsOrder, Sorted, Sorter}

module _ {A : Type 0} (less : A → A → Bool) where
  pub insert : A → List A → List A
  insert x [] = x ∷ []
  insert x (y ∷ ys) = let rest = insert x ys in if less y x then y ∷ rest else x ∷ y ∷ ys

  unfoldable pub insertion_sort : List A → List A
  unfolding insert
  insertion_sort [] = []
  insertion_sort (x ∷ xs) = insert x (insertion_sort xs)

  insert-perm : (x : A) (l : List A) → Perm (insert x l) (x ∷ l)
  unfolding insert
  insert-perm x [] = Perm.refl (x ∷ [])
  insert-perm x (y ∷ ys) = elim (Bool-cases (less y x)) [
    | inl e ↦ rw e (Perm.trans (Perm.cons y (insert-perm x ys)) (Perm.swap x y ys))
    | inr e ↦ rw e (Perm.refl _)
  ]

  pub insertion_sort-perm : (l : List A) → Perm (insertion_sort l) l
  unfolding insertion_sort
  insertion_sort-perm [] = Perm.refl []
  insertion_sort-perm (x ∷ xs) =
      Perm.trans (insert-perm x (insertion_sort xs)) (Perm.cons x (insertion_sort-perm xs))

  insert-All : (P : A → Type 0) (x : A) (l : List A) → P x → All P l → All P (insert x l)
  unfolding insert
  insert-All P x [] p h = (p, tt)
  insert-All P x (y ∷ ys) p h = elim (Bool-cases (less y x)) [
    | inl e ↦ rw e (h.0, insert-All P x ys p h.1)
    | inr e ↦ rw e (p, h)
  ]

  insert-Sorted : (x : A) (l : List A) → IsOrder A less → Sorted less l → Sorted less (insert x l)
  unfolding insert
  insert-Sorted x [] o h = (tt, tt)
  insert-Sorted x (y ∷ ys) o h = elim (Bool-cases (less y x)) [
    | inl e ↦
        rw e (
          insert-All (λ b. less b y ≡ false) x ys (o.asymmetric y x e) h.0,
          insert-Sorted x ys o h.1,
        )
    | inr e ↦ rw e ((e, All-mono (λ b n. o.negative_trans b y x n e) ys h.0), h)
  ]

  pub insertion_sort-Sorted : (l : List A) → IsOrder A less → Sorted less (insertion_sort l)
  unfolding insertion_sort
  insertion_sort-Sorted [] o = tt
  insertion_sort-Sorted (x ∷ xs) o =
      insert-Sorted x (insertion_sort xs) o (insertion_sort-Sorted xs o)

abbrev pub sorter : {A : Type 0} → Sorter A
sorter = record {
  sort = insertion_sort;
  sort-perm = insertion_sort-perm;
  sort-Sorted = insertion_sort-Sorted;
}
