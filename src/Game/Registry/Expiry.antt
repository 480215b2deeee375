-- ===== src/Game/Registry/Expiry.antt =====
-- game/registry.go: `Expire`.
use wc3ts.Prelude.{
  ℕ, ◌+◌, ◌≡◌, ◌≢◌, refl, ap, ◌∙◌, Bool, false, ◌&&◌, ◌||◌, inl, inr, Option, none, some, [], ◌∷◌,
  arith, Bytes, bytes_discrete, holds, ◌==◌, if◌then◌else◌, Bool-cases, ℕ_discrete,
}
use wc3ts.Prelude.Assoc.{get, remove, get-remove, IsMap, remove-IsMap}
use wc3ts.Prelude.Walk.{perm_invariant}
use wc3ts.Game.{Game, is_stale}
use wc3ts.Game.Registry.{Registry, Games, GameWalk, lookup, sweep, expire}
use wc3ts.Game.Registry.View.{IsValid, Notifies, notify-Notifies}

module _ (clock : Bytes → ℕ) (timeout : ℕ) where
  abbrev pub stale_entry : Bytes × Game → Bool
  stale_entry e = is_stale (clock e.0) timeout e.1

  -- How many entries are stale.
  pub count_stale : Games → ℕ
  count_stale [] = 0
  count_stale (e ∷ m) = (if stale_entry e then 1 else 0) + count_stale m

  -- Whether the key has a stale entry.
  stale_in : Bytes → Games → Bool
  stale_in j [] = false
  stale_in j (e ∷ m) = holds (bytes_discrete e.0 j) && stale_entry e || stale_in j m

  -- The binding of a key after `Expire`.
  abbrev pub unless_stale : Bytes → Option Game → Option Game
  unless_stale j none = none
  unless_stale j (some g) = if is_stale (clock j) timeout g then none else some g

  lookup-sweep :
      (j : Bytes) (entries m : Games) (n : ℕ)
      → lookup j (sweep clock timeout entries m n).0
        ≡ (if stale_in j entries then none else lookup j m)
  unfolding sweep stale_in
  lookup-sweep j [] m n = refl
  lookup-sweep j ((k, g) ∷ rest) m n = ground (
    arith,
    lookup-sweep j rest (if is_stale (clock k) timeout g then remove bytes_discrete k m else m)
        (if is_stale (clock k) timeout g then n + 1 else n),
    get-remove bytes_discrete k j m,
  )

  removed-sweep :
      (entries m : Games) (n : ℕ) → (sweep clock timeout entries m n).1 ≡ n + count_stale entries
  unfolding sweep count_stale
  removed-sweep [] m n = omega arith
  removed-sweep ((k, g) ∷ rest) m n = ground (
    arith,
    removed-sweep rest (if is_stale (clock k) timeout g then remove bytes_discrete k m else m)
        (if is_stale (clock k) timeout g then n + 1 else n),
  )

  sweep-IsMap :
      (entries m : Games) (n : ℕ)
      → IsMap bytes_discrete m
      → IsMap bytes_discrete (sweep clock timeout entries m n).0
  unfolding sweep
  sweep-IsMap [] m n u = u
  sweep-IsMap ((k, g) ∷ rest) m n u =
      sweep-IsMap rest _ _ (elim (Bool-cases (is_stale (clock k) timeout g)) [
        | inl e ↦ rw e (remove-IsMap bytes_discrete k m u)
        | inr e ↦ rw e u
      ])

  stale_in-order : (w : GameWalk) (j : Bytes) (m : Games) → stale_in j (w.order m) ≡ stale_in j m
  unfolding stale_in
  stale_in-order w j m =
      perm_invariant (stale_in j) (hlevel) (λ a l l' e. rw e) (λ a b l. ground arith)
        (w.order-perm m)

  count_stale-order : (w : GameWalk) (m : Games) → count_stale (w.order m) ≡ count_stale m
  unfolding count_stale
  count_stale-order w m =
      perm_invariant count_stale (hlevel ℕ_discrete) (λ a l l' e. rw e) (λ a b l. omega arith)
        (w.order-perm m)

  not-stale_in : (j : Bytes) (m : Games) → lookup j m ≡ none → stale_in j m ≡ false
  unfolding stale_in get
  not-stale_in j [] e = refl
  not-stale_in j ((k, g) ∷ m) e = ground (arith, not-stale_in j m)

  stale_in-lookup :
      (j : Bytes) (m : Games)
      → IsMap bytes_discrete m
      → (if stale_in j m then none else lookup j m) ≡ unless_stale j (lookup j m)
  unfolding stale_in get
  stale_in-lookup j [] u = refl
  stale_in-lookup j ((k, g) ∷ m) (fresh, u) =
      ground (arith, not-stale_in j m, stale_in-lookup j m u)

module _ (visit w : GameWalk) (clock : Bytes → ℕ) (timeout : ℕ) (r : Registry) where
  -- The games that `Expire` leaves, as a map.
  pub lookup-expire :
      (j : Bytes)
      → IsValid r
      → lookup j (expire visit w clock timeout r).registry.games
        ≡ unless_stale clock timeout j (lookup j r.games)
  unfolding expire
  lookup-expire j v =
      lookup-sweep clock timeout j (visit.order r.games) r.games 0
      ∙ ap (λ b. if b then none else lookup j r.games)
          (stale_in-order clock timeout visit j r.games)
      ∙ stale_in-lookup clock timeout j r.games v.one_each

  result-expire : (expire visit w clock timeout r).result ≡ count_stale clock timeout r.games
  unfolding expire
  result-expire = omega (
    arith,
    removed-sweep clock timeout (visit.order r.games) r.games 0,
    count_stale-order clock timeout visit r.games,
  )

  notified-expire_zero :
      (expire visit w clock timeout r).result ≡ 0 → (expire visit w clock timeout r).notified ≡ none
  unfolding expire
  notified-expire_zero e = ground arith

  notified-expire_some :
      (expire visit w clock timeout r).result ≢ 0
      → Notifies (expire visit w clock timeout r).registry (expire visit w clock timeout r).notified
  unfolding expire
  notified-expire_some e = rw (not_zero _ e) (notify-Notifies w _ r.on_change refl)
    where
      not_zero : (n : ℕ) → n ≢ 0 → (n == 0) ≡ false
      not_zero n ne = ground arith

  -- In a valid registry `Expire` removes each game that is stale when the loop reads the clock and
  -- keeps every other game, in whatever order the map is visited; it returns the number of stale
  -- games, notifies with what is left if that number is positive, and else does not notify.
  pub expire_lem :
      IsValid r
      → ((j : Bytes)
          → lookup j (expire visit w clock timeout r).registry.games
            ≡ unless_stale clock timeout j (lookup j r.games))
        × ((expire visit w clock timeout r).result ≡ count_stale clock timeout r.games)
        × ((expire visit w clock timeout r).result ≡ 0
            → (expire visit w clock timeout r).notified ≡ none)
        × ((expire visit w clock timeout r).result ≢ 0
            → Notifies
                (expire visit w clock timeout r).registry
                (expire visit w clock timeout r).notified)
  expire_lem v = (λ j. lookup-expire j v, result-expire, notified-expire_zero, notified-expire_some)

  pub expire-IsValid : IsValid r → IsValid (expire visit w clock timeout r).registry
  expire-IsValid v = record {
    one_each =
        unfold expire in sweep-IsMap clock timeout (visit.order r.games) r.games 0 v.one_each;
    keyed = λ k g e. ground (arith, lookup-expire k v, v.keyed k g);
  }
