-- ===== src/Game/Registry.antt =====
-- game/registry.go: the collection of discovered games, a Go map from keys to games. Each method
-- holds the lock from its first line to its last, so it is one step on the registry. A method that
-- may call `onChange` returns the list that it hands over, if it calls it.
pub mod View
pub mod Expiry
pub mod Run
pub mod Find
pub mod Lists
pub mod Values
use wc3ts.Prelude.{
  ℕ, ◌+◌, Bool, true, false, not, ◌&&◌, Option, none, some, List, [], ◌∷◌, ◌++◌, map, Bytes,
  bytes_discrete, ◌==◌, if◌then◌else◌,
}
use wc3ts.Prelude.Assoc.{Assoc, get, put, remove}
use wc3ts.Prelude.Walk.{Walk}
use wc3ts.Game.{Game, key, is_stale, is_local, is_remote}

abbrev pub Games : Type 0
Games = Assoc Bytes Game

abbrev pub GameWalk : Type 0
GameWalk = Walk (Bytes × Game)

pub record Registry : Type 0 where
  pub games : Games
  -- whether a callback is installed
  pub on_change : Bool

pub record Outcome (A : Type 0) : Type 0 where
  pub registry : Registry
  pub result : A
  -- the argument of the call of `onChange`
  pub notified : Option (List Game)

abbrev pub lookup : Bytes → Games → Option Game
lookup k m = get bytes_discrete k m

abbrev pub exists : Option Game → Bool
exists none = false
exists (some _) = true

unfoldable pub new_registry : Bool → Registry
new_registry on_change = record { games = []; on_change = on_change }

unfoldable pub snapshot : GameWalk → Registry → List Game
snapshot w r = map (λ e. e.1) (w.order r.games)

abbrev notify : GameWalk → Registry → Option (List Game)
notify w r = if r.on_change then some (snapshot w r) else none

-- what `Add` writes under the key, where `known` says whether the key was there; the clock is read
-- twice
unfoldable pub stored : Bool → ℕ → ℕ → Game → Game
stored known now later game =
    if known
    then record game { last_seen = later }
    else record game { first_seen = now; last_seen = later }

unfoldable pub add : GameWalk → ℕ → ℕ → Game → Registry → Outcome Bool
unfolding stored
add w now later game r =
    let known = exists (lookup (key game) r.games) in
    let entry = stored known now later game in
    let r' = record r { games = put bytes_discrete (key game) entry r.games } in
    record { registry = r'; result = not known; notified = notify w r' }

pub remove_game : GameWalk → Bytes → Registry → Outcome Bool
remove_game w k r =
    if exists (lookup k r.games)
    then (let r' = record r { games = remove bytes_discrete k r.games } in
        record { registry = r'; result = true; notified = notify w r' })
    else record { registry = r; result = false; notified = none }

pub all_games : GameWalk → Registry → List Game
unfolding snapshot
all_games w r = snapshot w r

-- the loops of `LocalGames` and `RemoteGames`
pub collect : (Game → Bool) → Games → List Game → List Game
collect p [] result = result
collect p ((k, g) ∷ rest) result = collect p rest (if p g then result ++ g ∷ [] else result)

pub local_games : GameWalk → Registry → List Game
unfolding collect
local_games w r = collect (λ g. is_local g.source) (w.order r.games) []

pub remote_games : GameWalk → Registry → List Game
unfolding collect
remote_games w r = collect (λ g. is_remote g.source) (w.order r.games) []

abbrev pub answers_to : ℕ → Game → Bool
answers_to host_counter g = is_remote g.source && g.info.host_counter == host_counter

pub first_answer : ℕ → Games → Option Game
first_answer host_counter [] = none
first_answer host_counter ((k, g) ∷ rest) =
    if answers_to host_counter g then some g else first_answer host_counter rest

pub find_by_host_counter : GameWalk → ℕ → Registry → Option Game
unfolding first_answer
find_by_host_counter w host_counter r = first_answer host_counter (w.order r.games)

-- The loop of `Expire`: `entries` are still to be visited; `clock k` is the time that `time.Since`
-- reads at the entry under `k`.
pub sweep : (Bytes → ℕ) → ℕ → Games → Games → ℕ → Games × ℕ
sweep clock timeout [] m removed = (m, removed)
sweep clock timeout ((k, g) ∷ rest) m removed =
    let stale = is_stale (clock k) timeout g in
    sweep clock timeout rest (if stale then remove bytes_discrete k m else m)
      (if stale then removed + 1 else removed)

pub expire : GameWalk → GameWalk → (Bytes → ℕ) → ℕ → Registry → Outcome ℕ
unfolding sweep
expire visit w clock timeout r =
    let (m, removed) = sweep clock timeout (visit.order r.games) r.games 0 in
    let r' = record r { games = m } in
    record {
      registry = r';
      result = removed;
      notified = if removed == 0 then none else notify w r';
    }
