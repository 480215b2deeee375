-- ===== src/Game/Registry/Values.antt =====
-- game/registry.go: the games of a registry as a list.
use mathlib.Core.List.{mem-map}
use mathlib.Core.Logic.{∥∥₁_elim}
use wc3ts.Prelude.{◌≡◌, refl, subst, ◌↔◌, some, Mem, bytes_discrete}
use wc3ts.Prelude.Assoc.{values}
use wc3ts.Prelude.Walk.{get_of_mem, mem_of_get}
use wc3ts.Game.{Game, key}
use wc3ts.Game.Registry.{Registry, lookup}
use wc3ts.Game.Registry.View.{Game-set, IsValid}

pub mem-values :
    (r : Registry) (g : Game)
    → IsValid r
    → Mem g (values r.games) ↔ (lookup (key g) r.games ≡ some g)
mem-values r g v = (
  λ m. ∥∥₁_elim (mem-map.0 m) (hlevel Game-set) (λ (e, h, same).
      let bound = get_of_mem bytes_discrete Game-set e.0 e.1 r.games v.one_each h in
      subst (λ x. lookup (key x) r.games ≡ some x) same (rw (v.keyed e.0 e.1 bound) bound)),
  λ bound.
      mem-map.1 ∣ ((key g, g), mem_of_get bytes_discrete Game-set (key g) g r.games bound, refl) ∣₁,
)
