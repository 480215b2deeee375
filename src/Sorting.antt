-- ===== src/Sorting.antt =====
-- `sort.Slice` and the comparison of strings of Go's standard library, as tui/update.go uses them.
-- `sort.Slice` is not stable and its order of equal elements is not specified, so that it is an
-- interface: every theorem is for all sorters.
use wc3ts.Prelude.{
  ℕ, ◌≡◌, refl, Bool, true, false, List, [], ◌∷◌, Bytes, Perm, ltb, arith, if◌then◌else◌, All,
}

-- `<` on strings, byte by byte
pub text_less : Bytes → Bytes → Bool
text_less s [] = false
text_less [] (d ∷ t) = true
text_less (c ∷ s) (d ∷ t) =
    let rest = text_less s t in if ltb c d then true else (if ltb d c then false else rest)

-- What `sort.Slice` demands of a comparison.
pub record IsOrder (A : Type 0) (less : A → A → Bool) : Type 0 where
  pub asymmetric : (a b : A) → less a b ≡ true → less b a ≡ false
  pub negative_trans : (a b c : A) → less a b ≡ false → less b c ≡ false → less a c ≡ false

-- No element is less than one before it.
abbrev pub Sorted : {A : Type 0} → (A → A → Bool) → List A → Type 0
Sorted less [] = Unit
Sorted less (a ∷ l) = All (λ b. less b a ≡ false) l × Sorted less l

pub record Sorter (A : Type 0) : Type 0 where
  pub sort : (A → A → Bool) → List A → List A
  pub sort-perm : (less : A → A → Bool) (l : List A) → Perm (sort less l) l
  pub sort-Sorted : (less : A → A → Bool) (l : List A) → IsOrder A less → Sorted less (sort less l)

text_less-asymmetric : (s t : Bytes) → text_less s t ≡ true → text_less t s ≡ false
unfolding text_less
text_less-asymmetric s [] e = cc
text_less-asymmetric [] (d ∷ t) e = refl
text_less-asymmetric (c ∷ s) (d ∷ t) e = ground (arith, text_less-asymmetric s t)

text_less-negative_trans :
    (s t u : Bytes) → text_less s t ≡ false → text_less t u ≡ false → text_less s u ≡ false
unfolding text_less
text_less-negative_trans s t [] e f = refl
text_less-negative_trans s [] (b ∷ u) e f = cc
text_less-negative_trans [] (d ∷ t) (b ∷ u) e f = cc
text_less-negative_trans (c ∷ s) (d ∷ t) (b ∷ u) e f =
    ground (arith, text_less-negative_trans s t u)

-- A number first, from low to high, and then a text.
unfoldable pub rank_less : ℕ → ℕ → Bytes → Bytes → Bool
rank_less m n s t = if ltb m n then true else (if ltb n m then false else text_less s t)

module _ {A : Type 0} (rank : A → ℕ) (name : A → Bytes) where
  -- To rank, from low to high or from high to low, and then to compare by name is an order.
  pub ascending-IsOrder : IsOrder A (λ a b. rank_less (rank a) (rank b) (name a) (name b))
  unfolding rank_less
  ascending-IsOrder = record {
    asymmetric = λ a b e. ground (arith, text_less-asymmetric (name a) (name b));
    negative_trans =
        λ a b c e f. ground (arith, text_less-negative_trans (name a) (name b) (name c));
  }

  pub descending-IsOrder : IsOrder A (λ a b. rank_less (rank b) (rank a) (name a) (name b))
  unfolding rank_less
  descending-IsOrder = record {
    asymmetric = λ a b e. ground (arith, text_less-asymmetric (name a) (name b));
    negative_trans =
        λ a b c e f. ground (arith, text_less-negative_trans (name a) (name b) (name c));
  }
