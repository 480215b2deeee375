-- ===== src/Lan/Once.antt =====
-- lan/broadcaster.go: how often a key is cancelled in one broadcast.
use wc3ts.Prelude.{
  ℕ, suc, ◌≤◌, ◌≡◌, refl, ap, sym, ◌∙◌, [], ◌∷◌, none, Bytes, bytes_discrete, ite, arith,
  ℕ_discrete, Option-cases, inl, inr,
}
use wc3ts.Prelude.Assoc.{Assoc, get, IsMap}
use wc3ts.Prelude.Walk.{Walk, perm_invariant}
use wc3ts.Lan.{Broadcaster}
use wc3ts.Lan.Broadcast.{gone, cancelled, counter_of}

-- How many entries have the key.
pub times : Bytes → Assoc Bytes ℕ → ℕ
times k [] = 0
times k ((j, h) ∷ m) = let rest = times k m in ite (bytes_discrete j k) (suc rest) rest

times-order :
    (k : Bytes) (w : Walk (Bytes × ℕ)) (m : Assoc Bytes ℕ) → times k (w.order m) ≡ times k m
unfolding times
times-order k w m =
    perm_invariant (times k) (hlevel ℕ_discrete)
      (λ e l n same. ap (λ x. ite (bytes_discrete e.0 k) (suc x) x) same) (λ d e l. ground arith)
      (w.order-perm m)

times-none : (k : Bytes) (m : Assoc Bytes ℕ) → counter_of k m ≡ none → times k m ≡ 0
unfolding times get
times-none k [] e = refl
times-none k ((j, h) ∷ m) e = ground (arith, times-none k m)

at_most_one : {P : Type 0} (n : ℕ) (d : Dec P) → (P → n ≡ 0) → n ≤ 1 → ite d (suc n) n ≤ 1
at_most_one n (yes p) z h = omega (arith, z p)
at_most_one n (no _) z h = h

times-IsMap : (k : Bytes) (m : Assoc Bytes ℕ) → IsMap bytes_discrete m → times k m ≤ 1
unfolding times
times-IsMap k [] u = omega arith
times-IsMap k ((j, h) ∷ m) (fresh, u) =
    at_most_one (times k m) (bytes_discrete j k)
      (λ same. times-none k m (ap (λ i. counter_of i m) (sym same) ∙ fresh)) (times-IsMap k m u)

times-gone : (k : Bytes) (current m : Assoc Bytes ℕ) → times k (gone current m) ≤ times k m
unfolding times gone
times-gone k current [] = omega arith
times-gone k current ((j, h) ∷ m) = elim (Option-cases (counter_of j current)) [
  | inl e ↦ rw (e, gone) (let fewer = times-gone k current m in ground arith)
  | inr (x, e) ↦ rw (e, gone) (let fewer = times-gone k current m in ground arith)
]

pub times-cancelled :
    (k : Bytes) (w : Walk (Bytes × ℕ)) (b : Broadcaster)
    → IsMap bytes_discrete b.previous_game_keys
    → times k (cancelled w b) ≤ 1
unfolding cancelled
times-cancelled k w b u = omega (
  arith,
  times-gone k _ (w.order b.previous_game_keys),
  times-order k w b.previous_game_keys,
  times-IsMap k b.previous_game_keys u,
)
