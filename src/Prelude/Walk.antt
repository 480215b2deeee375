-- ===== src/Prelude/Walk.antt =====
-- The order in which Go's `range` visits a map is not specified, and may differ from one loop to
-- the next. A `Walk` is one such choice; each loop over a map takes its own.
use mathlib.Core.Path.{◌≡◌, refl, ap, ap₂, ◌∙◌}
use mathlib.Core.List.{List, [], ◌∷◌, Mem, Perm, Permᴰ, mem-cons, not-mem-nil, mem-cons_self}
use mathlib.Core.List.{mem-cons_of_mem, mem-cast}
use mathlib.Core.List.Perm
use mathlib.Core.Logic.{∥∥₁_elim}
use mathlib.Core.Logic.Or
use mathlib.Core.Option.{some}
use native.Mathlib.Omega.{arith}
use wc3ts.Prelude.Assoc.{Assoc, get, IsMap}

pub record Walk (A : Type 0) : Type 0 where
  pub order : List A → List A
  pub order-perm : (l : List A) → Perm (order l) l

-- The walk that visits the entries as they stand.
abbrev pub straight : {A : Type 0} → Walk A
straight = record { order = λ l. l; order-perm = λ l. Perm.refl l }

-- A walk visits the entries that are there.
pub mem-order : {A : Type 0} (w : Walk A) {a : A} (l : List A) → Mem a (w.order l) → Mem a l
mem-order w l m = (Perm.mem_iff (w.order-perm l)).0 m

pub order-mem : {A : Type 0} (w : Walk A) {a : A} (l : List A) → Mem a l → Mem a (w.order l)
order-mem w l m = (Perm.mem_iff (w.order-perm l)).1 m

-- What does not depend on the order of neighbours does not depend on the walk.
module _ {A B : Type 0} (f : List A → B) (set_b : IsSet B)
    (same_cons : (a : A) (l m : List A) → f l ≡ f m → f (a ∷ l) ≡ f (a ∷ m))
    (same_swap : (a b : A) (l : List A) → f (a ∷ b ∷ l) ≡ f (b ∷ a ∷ l)) where
  permᴰ_invariant : {l m : List A} → Permᴰ l m → f l ≡ f m
  permᴰ_invariant Permᴰ.nil = refl
  permᴰ_invariant (Permᴰ.cons {a = a} {l₁ = l} {l₂ = m} e p) =
      same_cons a l m (permᴰ_invariant p) ∙ ap (λ x. f (x ∷ m)) e
  permᴰ_invariant (Permᴰ.swap {a = a} {b = b} {l = l} e d) =
      same_swap a b l ∙ ap₂ (λ x y. f (x ∷ y ∷ l)) d e
  permᴰ_invariant (Permᴰ.trans p q) = permᴰ_invariant p ∙ permᴰ_invariant q

  pub perm_invariant : {l m : List A} → Perm l m → f l ≡ f m
  perm_invariant p = ∥∥₁_elim p (set_b _ _) permᴰ_invariant

-- In a map, an entry is listed exactly when its key is bound to its value.
module _ {K V : Type 0} (dec : Discrete K) (set_v : IsSet V) where
  pub get_of_mem :
      (k : K) (v : V) (m : Assoc K V) → IsMap dec m → Mem (k, v) m → get dec k m ≡ some v
  unfolding get
  get_of_mem k v [] u h = absurd (not-mem-nil h)
  get_of_mem k v ((j, w) ∷ m) (fresh, u) h =
      Or.elim (hlevel set_v) (mem-cons.0 h)
        (λ same. ground (arith, ap (λ p. p.0) same, ap (λ p. p.1) same))
        (λ rest. ground (arith, get_of_mem k v m u rest))

  pub mem_of_get : (k : K) (v : V) (m : Assoc K V) → get dec k m ≡ some v → Mem (k, v) m
  unfolding get
  mem_of_get k v [] e = ground arith
  mem_of_get k v ((j, w) ∷ m) e = elim (dec j k) [
    | yes hit ↦ mem-cast (ground arith) mem-cons_self
    | no miss ↦ mem-cons_of_mem (j, w) (mem_of_get k v m (ground arith))
  ]
