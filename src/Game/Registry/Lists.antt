-- ===== src/Game/Registry/Lists.antt =====
-- game/registry.go: `Games`, `LocalGames` and `RemoteGames`.
use mathlib.Core.List.{
  mem-cons_self, mem-cons_of_mem, not-mem-nil, mem-cons, mem-cast, Mem-prop, Permᴰ, perm_middle,
}
use mathlib.Core.List.Perm
use mathlib.Core.Logic.Or
use mathlib.Core.Logic.{∥∥₁_map, ∥∥₁_elim}
use wc3ts.Prelude.{
  ◌≡◌, ◌↔◌, sym, ap, ◌∙◌, Bool, true, some, List, [], ◌∷◌, ◌++◌, append_assoc, append-nil, Bytes,
  bytes_discrete, Mem, Perm, Bool-cases, inl, inr, if◌then◌else◌,
}
use wc3ts.Prelude.Assoc.{values}
use wc3ts.Prelude.Walk.{get_of_mem, mem_of_get}
use wc3ts.Game.{Game, Source, key, source_local, source_remote, is_local, is_remote}
use wc3ts.Game.Registry.{
  Registry, Games, GameWalk, lookup, collect, all_games, local_games, remote_games,
}
use wc3ts.Game.Registry.View.{Game-set, IsValid, snapshot-perm}

-- The games of the entries that pass the test, in order.
pub picked : (Game → Bool) → Games → List Game
picked p [] = []
picked p ((k, g) ∷ m) = if p g then g ∷ picked p m else picked p m

collect-picked :
    (p : Game → Bool) (m : Games) (out : List Game) → collect p m out ≡ out ++ picked p m
unfolding collect picked
collect-picked p [] out = sym (append-nil out)
collect-picked p ((k, g) ∷ m) out = elim (Bool-cases (p g)) [
  | inl e ↦ rw (e, collect-picked p m (out ++ g ∷ []), append_assoc)
  | inr e ↦ rw (e, collect-picked p m out)
]

mem-picked :
    (p : Game → Bool) (m : Games) (k : Bytes) (g : Game)
    → Mem (k, g) m
    → p g ≡ true
    → Mem g (picked p m)
unfolding picked
mem-picked p [] k g h e = absurd (not-mem-nil h)
mem-picked p ((j, x) ∷ m) k g h e =
    Or.elim Mem-prop (mem-cons.0 h)
      (λ same.
        let hit : p x ≡ true = ap (λ d. p d.1) (sym same) ∙ e in
        rw hit (mem-cast (ap (λ d. d.1) same) mem-cons_self))
      (λ later. elim (Bool-cases (p x)) [
        | inl b ↦ rw b (mem-cons_of_mem x (mem-picked p m k g later e))
        | inr b ↦ rw b (mem-picked p m k g later e)
      ])

picked-mem :
    (p : Game → Bool) (m : Games) (g : Game)
    → Mem g (picked p m)
    → ∥ ((k : Bytes) × Mem (k, g) m × (p g ≡ true)) ∥₁
unfolding picked
picked-mem p [] g h = absurd (not-mem-nil h)
picked-mem p ((j, x) ∷ m) g h =
    let deeper = λ (l : Mem g (picked p m)).
      ∥∥₁_map (picked-mem p m g l) (λ t. (t.0, mem-cons_of_mem (j, x) t.1, t.2)) in
    elim (Bool-cases (p x)) [
      | inl b ↦
          Or.elim squash₁ (mem-cons.0 (rw b at h))
            (λ same. ∣ (j, mem-cast (ap (λ y. (j, y)) same) mem-cons_self, ap p same ∙ b) ∣₁) deeper
      | inr b ↦ deeper (rw b at h)
    ]

picked-permᴰ : (p : Game → Bool) {l m : Games} → Permᴰ l m → Perm (picked p l) (picked p m)
unfolding picked
picked-permᴰ p Permᴰ.nil = Perm.refl []
picked-permᴰ p (Permᴰ.cons {a = (j, x)} {l₁ = l} {l₂ = m} e t) = rw (← e) (elim (Bool-cases (p x)) [
  | inl b ↦ rw b (Perm.cons x (picked-permᴰ p t))
  | inr b ↦ rw b (picked-permᴰ p t)
])
picked-permᴰ p (Permᴰ.swap {a = (j, x)} {b = (k, y)} {l = l} e d) =
    rw (← e, ← d)
      (elim (Bool-cases (p x)) [
        | inl b ↦ elim (Bool-cases (p y)) [
          | inl c ↦ rw (b, c) (Perm.swap y x (picked p l))
          | inr c ↦ rw (b, c) (Perm.refl (x ∷ picked p l))
        ]
        | inr b ↦ rw b (Perm.refl _)
      ])
picked-permᴰ p (Permᴰ.trans s t) = Perm.trans (picked-permᴰ p s) (picked-permᴰ p t)

picked-perm : (p : Game → Bool) {l m : Games} → Perm l m → Perm (picked p l) (picked p m)
picked-perm p t = ∥∥₁_elim t squash₁ (picked-permᴰ p)

collect-perm :
    (p : Game → Bool) (w : GameWalk) (m : Games) → Perm (collect p (w.order m) []) (picked p m)
collect-perm p w m = rw (collect-picked p (w.order m) []) (picked-perm p (w.order-perm m))

mem-collect :
    (p : Game → Bool) (w : GameWalk) (r : Registry) (g : Game)
    → IsValid r
    → Mem g (collect p (w.order r.games) []) ↔ ((lookup (key g) r.games ≡ some g) × (p g ≡ true))
mem-collect p w r g v = (
  λ h.
      ∥∥₁_elim (picked-mem p r.games g ((Perm.mem_iff (collect-perm p w r.games)).0 h))
        (hlevel Game-set)
        (λ t.
          let bound = get_of_mem bytes_discrete Game-set t.0 g r.games v.one_each t.1 in
          (rw (v.keyed t.0 g bound) bound, t.2)),
  λ t. (Perm.mem_iff (collect-perm p w r.games)).1 (
      mem-picked p r.games (key g) g (mem_of_get bytes_discrete Game-set (key g) g r.games t.0)
        t.1),
)

-- In a valid registry, a game is among `LocalGames` exactly when it is bound to its key and local,
-- and among `RemoteGames` exactly when it is bound to its key and remote.
pub mem-lists :
    (w : GameWalk) (r : Registry) (g : Game)
    → IsValid r
    → (Mem g (local_games w r) ↔ ((lookup (key g) r.games ≡ some g) × (is_local g.source ≡ true)))
      × (Mem g (remote_games w r)
          ↔ ((lookup (key g) r.games ≡ some g) × (is_remote g.source ≡ true)))
unfolding local_games remote_games
mem-lists w r g v =
    (mem-collect (λ x. is_local x.source) w r g v, mem-collect (λ x. is_remote x.source) w r g v)

split_step :
    (s : Source) (g : Game) (l m all : List Game)
    → Perm (l ++ m) all
    → Perm ((if is_local s then g ∷ l else l) ++ (if is_remote s then g ∷ m else m)) (g ∷ all)
split_step source_local g l m all p = Perm.cons g p
split_step source_remote g l m all p = Perm.trans (perm_middle l m) (Perm.cons g p)

split-perm :
    (m : Games)
    → Perm (picked (λ g. is_local g.source) m ++ picked (λ g. is_remote g.source) m) (values m)
unfolding picked
split-perm [] = Perm.refl []
split-perm ((k, g) ∷ m) =
    split_step g.source g (picked (λ x. is_local x.source) m) (picked (λ x. is_remote x.source) m)
      (values m) (split-perm m)

-- Each game that `Games` returns is in one of `LocalGames` and `RemoteGames`, as often, and they
-- have no other; the three calls may each see the map in an order of its own.
pub local-remote-perm :
    (v w x : GameWalk) (r : Registry) → Perm (local_games v r ++ remote_games w r) (all_games x r)
unfolding local_games remote_games all_games
local-remote-perm v w x r =
    Perm.trans (Perm.append (collect-perm _ v r.games) (collect-perm _ w r.games))
      (Perm.trans (split-perm r.games) (Perm.symm (snapshot-perm x r)))
