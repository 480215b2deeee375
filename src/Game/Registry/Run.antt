-- ===== src/Game/Registry/Run.antt =====
-- game/registry.go: sequences of calls, and a finite map as their specification.
use wc3ts.Prelude.{
  ℕ, ◌≡◌, refl, fun_ext, ◌∙◌, Option, none, some, List, [], ◌∷◌, Bytes, bytes_discrete, ite,
}
use wc3ts.Game.{Game, key}
use wc3ts.Game.Registry.{Registry, GameWalk, lookup, exists, stored, add, remove_game, expire}
use wc3ts.Game.Registry.View.{IsValid, lookup-add, add-IsValid, lookup-remove_game, remove-IsValid}
use wc3ts.Game.Registry.Expiry.{unless_stale, lookup-expire, expire-IsValid}

-- A call that changes the registry, with what the environment gives it: the orders of the loops
-- and the times on the clock.
pub data Call : Type 0 where
  adds : GameWalk → ℕ → ℕ → Game → Call
  removes : GameWalk → Bytes → Call
  expires : GameWalk → GameWalk → (Bytes → ℕ) → ℕ → Call

pub step : Registry → Call → Registry
step r (adds w now later g) = (add w now later g r).registry
step r (removes w k) = (remove_game w k r).registry
step r (expires visit w clock timeout) = (expire visit w clock timeout r).registry

pub run : Registry → List Call → Registry
run r [] = r
run r (c ∷ cs) = run (step r c) cs

-- What the registry stands for.
abbrev pub Bindings : Type 0
Bindings = Bytes → Option Game

abbrev pub bindings : Registry → Bindings
bindings r k = lookup k r.games

-- The specification of each call. No walk occurs in it.
pub spec_step : Bindings → Call → Bindings
spec_step m (adds w now later g) j =
    ite (bytes_discrete (key g) j) (some (stored (exists (m (key g))) now later g)) (m j)
spec_step m (removes w k) j = ite (bytes_discrete k j) none (m j)
spec_step m (expires visit w clock timeout) j = unless_stale clock timeout j (m j)

pub spec_run : Bindings → List Call → Bindings
spec_run m [] = m
spec_run m (c ∷ cs) = spec_run (spec_step m c) cs

step-IsValid : (r : Registry) (c : Call) → IsValid r → IsValid (step r c)
unfolding step
step-IsValid r (adds w now later g) v = add-IsValid w now later g r v
step-IsValid r (removes w k) v = remove-IsValid w k r v
step-IsValid r (expires visit w clock timeout) v = expire-IsValid visit w clock timeout r v

bindings-step :
    (r : Registry) (c : Call) → IsValid r → bindings (step r c) ≡ spec_step (bindings r) c
unfolding step spec_step
bindings-step r (adds w now later g) v = fun_ext (λ j. lookup-add w now later g r j)
bindings-step r (removes w k) v = fun_ext (λ j. lookup-remove_game w k r j)
bindings-step r (expires visit w clock timeout) v =
    fun_ext (λ j. lookup-expire visit w clock timeout r j v)

-- Any sequence of calls keeps a valid registry valid.
pub run-IsValid : (r : Registry) (cs : List Call) → IsValid r → IsValid (run r cs)
unfolding run
run-IsValid r [] v = v
run-IsValid r (c ∷ cs) v = run-IsValid (step r c) cs (step-IsValid r c v)

-- After any sequence of calls on a valid registry, each key is bound as the specification binds
-- it, whatever orders the map loops took.
pub bindings-run :
    (r : Registry) (cs : List Call) → IsValid r → bindings (run r cs) ≡ spec_run (bindings r) cs
unfolding run spec_run
bindings-run r [] v = refl
bindings-run r (c ∷ cs) v =
    bindings-run (step r c) cs (step-IsValid r c v) ∙ (rw (bindings-step r c v))
