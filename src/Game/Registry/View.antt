-- ===== src/Game/Registry/View.antt =====
-- game/registry.go: `Add` and `Remove`.
use mathlib.Core.List.Perm
use wc3ts.Prelude.{
  ℕ, ◌≡◌, refl, Bool, true, false, not, Option, none, some, List, Perm, arith, Bytes,
  bytes_discrete, All, ite, if◌then◌else◌, ℕ_discrete,
}
use wc3ts.Prelude.Assoc.{get, get-All, get-put, get-remove, IsMap, put-IsMap, remove-IsMap, values}
use wc3ts.Net.{addr_discrete}
use wc3ts.Game.{Game, key}
use wc3ts.Game.Registry.{
  Registry, Games, Outcome, GameWalk, lookup, exists, stored, add, remove_game, snapshot,
  new_registry,
}

pub Game-set : IsSet Game
Game-set = hlevel (ℕ_discrete, addr_discrete)

-- Each key is bound once, to a game that has that key.
pub record IsValid (r : Registry) : Type 0 where
  pub one_each : IsMap bytes_discrete r.games
  pub keyed : (k : Bytes) (g : Game) → lookup k r.games ≡ some g → key g ≡ k

-- It is enough that each entry stands under its key.
pub keyed_of_entries :
    (m : Games) (k : Bytes) (g : Game)
    → All (λ e. key e.1 ≡ e.0) m
    → lookup k m ≡ some g
    → key g ≡ k
keyed_of_entries m k g h e = get-All bytes_discrete (λ x. key x.1 ≡ x.0) m k g h e

-- The callback was called with the games of `r` in some order, if one is installed.
abbrev pub Notifies : Registry → Option (List Game) → Type 0
Notifies r none = r.on_change ≡ false
Notifies r (some l) = (r.on_change ≡ true) × Perm l (values r.games)

pub snapshot-perm : (w : GameWalk) (r : Registry) → Perm (snapshot w r) (values r.games)
unfolding snapshot
snapshot-perm w r = Perm.map _ (w.order-perm r.games)

pub notify-Notifies :
    (w : GameWalk) (r : Registry) (b : Bool)
    → r.on_change ≡ b
    → Notifies r (if b then some (snapshot w r) else none)
notify-Notifies w r true e = (e, snapshot-perm w r)
notify-Notifies w r false e = e

pub key-stored : (b : Bool) (now later : ℕ) (g : Game) → key (stored b now later g) ≡ key g
unfolding stored key
key-stored true now later g = refl
key-stored false now later g = refl

module _ (w : GameWalk) (now later : ℕ) (g : Game) (r : Registry) where
  pub lookup-add :
      (j : Bytes)
      → lookup j (add w now later g r).registry.games
        ≡ ite
            (bytes_discrete (key g) j)
            (some (stored (exists (lookup (key g) r.games)) now later g))
            (lookup j r.games)
  unfolding add
  lookup-add j = get-put bytes_discrete (key g) j _ r.games

  -- `Add` binds the key of the game to it, stamped with the clock, and leaves every other key; it
  -- returns whether the key was new, and notifies a callback with the games that there are now.
  pub add_lem :
      ((j : Bytes)
        → lookup j (add w now later g r).registry.games
          ≡ ite
              (bytes_discrete (key g) j)
              (some (stored (exists (lookup (key g) r.games)) now later g))
              (lookup j r.games))
      × ((add w now later g r).result ≡ not (exists (lookup (key g) r.games)))
      × Notifies (add w now later g r).registry (add w now later g r).notified
  unfolding add
  add_lem = (lookup-add, refl, notify-Notifies w _ r.on_change refl)

  -- `Add` keeps a registry valid.
  pub add-IsValid : IsValid r → IsValid (add w now later g r).registry
  unfolding add
  add-IsValid v = record {
    one_each = put-IsMap bytes_discrete (key g) _ r.games v.one_each;
    keyed = λ k x e. ground (
      arith,
      get-put bytes_discrete (key g) k (stored (exists (lookup (key g) r.games)) now later g)
          r.games,
      key-stored (exists (lookup (key g) r.games)) now later g,
      v.keyed k x,
    );
  }

-- What `Remove` does, by what the key was bound to.
abbrev pub Removes : Bytes → Registry → Outcome Bool → Option Game → Type 0
Removes k r o none = (o.registry ≡ r) × (o.result ≡ false) × (o.notified ≡ none)
Removes k r o (some g) =
    ((j : Bytes) → lookup j o.registry.games ≡ ite (bytes_discrete k j) none (lookup j r.games))
    × (o.result ≡ true)
    × Notifies o.registry o.notified

module _ (w : GameWalk) (k : Bytes) (r : Registry) where
  remove_cases : (o : Option Game) → lookup k r.games ≡ o → Removes k r (remove_game w k r) o
  unfolding remove_game
  remove_cases none e = rw e (refl, refl, refl)
  remove_cases (some g) e =
      rw e (λ j. get-remove bytes_discrete k j r.games, refl, notify-Notifies w _ r.on_change refl)

  -- `Remove` of a key that is there unbinds it and nothing else, returns true and notifies a
  -- callback with the games that are left; of a key that is not there it changes nothing, returns
  -- false and does not notify.
  pub remove_lem : Removes k r (remove_game w k r) (lookup k r.games)
  remove_lem = remove_cases (lookup k r.games) refl

  pub lookup-remove_game :
      (j : Bytes)
      → lookup j (remove_game w k r).registry.games
        ≡ ite (bytes_discrete k j) none (lookup j r.games)
  unfolding remove_game
  lookup-remove_game j = ground (arith, get-remove bytes_discrete k j r.games)

  pub remove-IsValid : IsValid r → IsValid (remove_game w k r).registry
  unfolding remove_game
  remove-IsValid v = record {
    one_each = ground (arith, remove-IsMap bytes_discrete k r.games v.one_each);
    keyed = λ j x e. ground (arith, get-remove bytes_discrete k j r.games, v.keyed j x);
  }

pub new-IsValid : (b : Bool) → IsValid (new_registry b)
unfolding new_registry get
new-IsValid b = record { one_each = tt; keyed = λ k g e. cc }
