-- ===== src/Tests/Games.antt =====
-- The registry.
use wc3ts.Prelude.{
  ◌≡◌, ◌≢◌, refl, List, [], ◌∷◌, none, some, Bytes, codes, bytes_discrete, ℕ_discrete,
}
use wc3ts.Prelude.Assoc.{get, get-All}
use wc3ts.Prelude.Walk.{straight}
use wc3ts.Game.{Game}
use wc3ts.Game.Registry.{GameWalk, lookup, expire, find_by_host_counter}
use wc3ts.Game.Registry.View.{Notifies}
use wc3ts.Game.Registry.Expiry.{unless_stale, count_stale, expire_lem}
use wc3ts.Game.Registry.Find.{Answers, Finds, find_lem, find_ambiguous}
use wc3ts.Game.Registry.Run.{Call, adds, removes, expires, run, spec_run, bindings, bindings-run}
use wc3ts.Tests.Data.{registry, remote_game, registry-IsValid}

-- The remote game, seen at time 20, is stale at time 31 with a timeout of 10.
expire_lem_example :
    ((j : Bytes)
      → lookup j (expire straight straight (λ k. 31) 10 registry).registry.games
        ≡ unless_stale (λ k. 31) 10 j (lookup j registry.games))
    × ((expire straight straight (λ k. 31) 10 registry).result
        ≡ count_stale (λ k. 31) 10 registry.games)
    × ((expire straight straight (λ k. 31) 10 registry).result ≡ 0
        → (expire straight straight (λ k. 31) 10 registry).notified ≡ none)
    × ((expire straight straight (λ k. 31) 10 registry).result ≢ 0
        → Notifies
            (expire straight straight (λ k. 31) 10 registry).registry
            (expire straight straight (λ k. 31) 10 registry).notified)
expire_lem_example = expire_lem straight straight (λ k. 31) 10 registry registry-IsValid

abbrev calls : List Call
calls =
    adds straight 30 31 remote_game
    ∷ removes straight (codes "local:lobby")
    ∷ expires straight straight (λ k. 99) 10
    ∷ []

bindings-run_example : bindings (run registry calls) ≡ spec_run (bindings registry) calls
bindings-run_example = bindings-run registry calls registry-IsValid

find_lem_example : Finds registry 3 (find_by_host_counter straight 3 registry)
find_lem_example = find_lem straight 3 registry registry-IsValid

pub bound_remote : lookup (codes "100.64.0.7:lobby") registry.games ≡ some remote_game
unfolding get bytes_discrete ℕ_discrete
bound_remote = refl

pub Answers-remote : Answers 3 remote_game
Answers-remote = record { remote = refl; counter = refl }

pub only_remote :
    (j : Bytes) (x : Game)
    → lookup j registry.games ≡ some x
    → Answers 3 x
    → j ≡ codes "100.64.0.7:lobby"
only_remote j x e a =
    get-All bytes_discrete (λ d. Answers 3 d.1 → d.0 ≡ codes "100.64.0.7:lobby") registry.games j x
      ((λ _. refl), ((λ b. cc b.remote), tt)) e a

find_ambiguous_example : (w : GameWalk) × (find_by_host_counter w 3 registry ≡ some remote_game)
find_ambiguous_example =
    find_ambiguous 3 registry (codes "100.64.0.7:lobby") remote_game bound_remote Answers-remote
