-- ===== src/Prelude/Assoc.antt =====
-- Go maps as association lists: a key is bound once. `get` is `m[k]`, `put` is `m[k] = v` and
-- `remove` is `delete(m, k)`.
use mathlib.Core.List.{List, [], ◌∷◌, map}
use mathlib.Core.Logic.{ite}
use mathlib.Core.Option.{Option, none, some}
use mathlib.Core.Path.{◌≡◌, refl, subst}
use native.Mathlib.Omega.{arith}
use wc3ts.Prelude.Lists.{All}

abbrev pub Assoc {ℓ} : Type ℓ → Type ℓ → Type ℓ
Assoc K V = List (K × V)

module _ {ℓ} {K V : Type ℓ} where
  abbrev pub keys : Assoc K V → List K
  keys = map (λ e. e.0)

  abbrev pub values : Assoc K V → List V
  values = map (λ e. e.1)

module _ {ℓ} {K V : Type ℓ} (dec : Discrete K) where
  unfoldable pub get : K → Assoc K V → Option V
  get k [] = none
  get k ((j, v) ∷ m) = ite (dec j k) (some v) (get k m)

  unfoldable pub put : K → V → Assoc K V → Assoc K V
  put k v [] = (k, v) ∷ []
  put k v ((j, w) ∷ m) = ite (dec j k) ((k, v) ∷ m) ((j, w) ∷ put k v m)

  pub remove : K → Assoc K V → Assoc K V
  remove k [] = []
  remove k ((j, v) ∷ m) = ite (dec j k) (remove k m) ((j, v) ∷ remove k m)

  -- Every key is bound once.
  abbrev pub IsMap : Assoc K V → Type ℓ
  IsMap [] = Unit
  IsMap ((k, v) ∷ m) = (get k m ≡ none) × IsMap m

  pub get-put :
      (k j : K) (v : V) (m : Assoc K V) → get j (put k v m) ≡ ite (dec k j) (some v) (get j m)
  unfolding get put
  get-put k j v [] = refl
  get-put k j v ((i, w) ∷ m) = ground (arith, get-put k j v m)

  pub get-remove : (k j : K) (m : Assoc K V) → get j (remove k m) ≡ ite (dec k j) none (get j m)
  unfolding get remove
  get-remove k j [] = ground arith
  get-remove k j ((i, w) ∷ m) = ground (arith, get-remove k j m)

  pub put-IsMap : (k : K) (v : V) (m : Assoc K V) → IsMap m → IsMap (put k v m)
  unfolding get put
  put-IsMap k v [] h = (refl, tt)
  put-IsMap k v ((i, w) ∷ m) h = ground (arith, get-put k i v m, put-IsMap k v m h.1)

  pub remove-IsMap : (k : K) (m : Assoc K V) → IsMap m → IsMap (remove k m)
  unfolding get remove
  remove-IsMap k [] h = tt
  remove-IsMap k ((i, w) ∷ m) h = ground (arith, get-remove k i m, remove-IsMap k m h.1)

-- What holds of every entry holds of a binding that is found.
module _ {ℓ κ} {K V : Type ℓ} (dec : Discrete K) (P : K × V → Type κ) where
  pub get-All : (m : Assoc K V) (k : K) (v : V) → All P m → get dec k m ≡ some v → P (k, v)
  unfolding get
  get-All [] k v h e = cc
  get-All ((j, w) ∷ m) k v h e = elim (dec j k) [
    | yes hit ↦ let same : ◌≡◌ {A = K × V} (j, w) (k, v) = ground arith in subst P same h.0
    | no miss ↦ get-All m k v h.1 (ground arith)
  ]
