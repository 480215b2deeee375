-- ===== src/Game/Registry/Find.antt =====
-- game/registry.go: `FindByHostCounter`, by which a connection is sent to a host.
use mathlib.Core.List.{mem-cons_self, mem-cons_of_mem, not-mem-nil, mem-cons, mem-cast}
use mathlib.Core.Logic.Or
use mathlib.Core.List.Perm
use wc3ts.Prelude.{
  ℕ, ◌≡◌, refl, sym, subst, ite, ap, ◌∙◌, true, Option, none, some, [], ◌∷◌, arith, Bytes,
  bytes_discrete, Mem, Perm, Bool-cases, Option-cases, inl, inr,
}
use wc3ts.Prelude.Walk.{mem-order, order-mem, get_of_mem, mem_of_get}
use wc3ts.Prelude.Assoc.{get}
use wc3ts.Game.{Game, key, source_remote}
use wc3ts.Game.Registry.{
  Registry, Games, GameWalk, lookup, answers_to, first_answer, find_by_host_counter,
}
use wc3ts.Game.Registry.View.{Game-set, IsValid}

-- The game is hosted by a remote peer under the host counter.
pub record Answers (h : ℕ) (g : Game) : Type 0 where
  pub remote : g.source ≡ source_remote
  pub counter : g.info.host_counter ≡ h

answers_to-Answers : (h : ℕ) (g : Game) → answers_to h g ≡ true → Answers h g
answers_to-Answers h g e = record { remote = ground arith; counter = ground arith }

Answers-answers_to : (h : ℕ) (g : Game) → Answers h g → answers_to h g ≡ true
Answers-answers_to h g a = rw (a.remote, a.counter) (ground arith)

first_answer-found :
    (h : ℕ) (entries : Games) (g : Game)
    → first_answer h entries ≡ some g
    → (k : Bytes) × Mem (k, g) entries × Answers h g
unfolding first_answer
first_answer-found h [] g e = cc
first_answer-found h ((k, x) ∷ rest) g e = elim (Bool-cases (answers_to h x)) [
  | inl hit ↦
      let same : x ≡ g = ground arith in
      (
        k,
        mem-cast (λ i. (k, sym same i)) mem-cons_self,
        subst (Answers h) same (answers_to-Answers h x hit),
      )
  | inr miss ↦
      let (j, m, a) = first_answer-found h rest g (ground arith) in (j, mem-cons_of_mem (k, x) m, a)
]

first_answer-none :
    (h : ℕ) (entries : Games) (k : Bytes) (g : Game)
    → first_answer h entries ≡ none
    → Mem (k, g) entries
    → ¬ Answers h g
unfolding first_answer
first_answer-none h [] k g e m a = not-mem-nil m
first_answer-none h ((j, x) ∷ rest) k g e m a =
    Or.elim (λ x. absurd x) (mem-cons.0 m)
      (λ same. ground (arith, Answers-answers_to h g a, ap (λ p. p.1) same))
      (λ later. first_answer-none h rest k g (ground arith) later a)

-- What a search for a host counter returns.
abbrev pub Finds : Registry → ℕ → Option Game → Type 0
Finds r h none = (k : Bytes) (g : Game) → lookup k r.games ≡ some g → ¬ Answers h g
Finds r h (some g) = (lookup (key g) r.games ≡ some g) × Answers h g

module _ (w : GameWalk) (h : ℕ) (r : Registry) (v : IsValid r) where
  find_found : (g : Game) → find_by_host_counter w h r ≡ some g → Finds r h (some g)
  unfolding find_by_host_counter
  find_found g e =
      let (k, m, a) = first_answer-found h (w.order r.games) g e in
      let bound =
        get_of_mem bytes_discrete Game-set k g r.games v.one_each (mem-order w r.games m) in
      (rw (v.keyed k g bound) bound, a)

  find_cases : (o : Option Game) → find_by_host_counter w h r ≡ o → Finds r h o
  unfolding find_by_host_counter
  find_cases none e = λ k g bound.
      first_answer-none h (w.order r.games) k g e
        (order-mem w r.games (mem_of_get bytes_discrete Game-set k g r.games bound))
  find_cases (some g) e = find_found g e

  -- In a valid registry, `FindByHostCounter` returns a remote game of the registry that has the
  -- counter, and it returns nil only if there is none.
  pub find_lem : Finds r h (find_by_host_counter w h r)
  find_lem = find_cases (find_by_host_counter w h r) refl

  -- In a valid registry, if the game under `k` is the only remote game with the counter, then it is
  -- found, in whatever order the map is visited.
  pub find_unique :
      (k : Bytes) (g : Game)
      → lookup k r.games ≡ some g
      → Answers h g
      → ((j : Bytes) (x : Game) → lookup j r.games ≡ some x → Answers h x → j ≡ k)
      → find_by_host_counter w h r ≡ some g
  find_unique k g bound a only = elim (Option-cases (find_by_host_counter w h r)) [
    | inl e ↦ absurd (find_cases none e k g bound a)
    | inr (x, e) ↦
        let (bound', a') = find_found x e in
        e ∙ sym bound' ∙ ap (λ j. lookup j r.games) (only (key x) x bound' a') ∙ bound
  ]

-- The walk that visits the entry of one key first.
behind : Bytes × Game → Games → Games
behind e [] = e ∷ []
behind e (d ∷ m) = d ∷ e ∷ m

front : Bytes → Games → Games
unfolding behind
front k [] = []
front k (e ∷ m) = ite (bytes_discrete e.0 k) (e ∷ m) (behind e (front k m))

behind-perm : (e : Bytes × Game) (l m : Games) → Perm l m → Perm (behind e l) (e ∷ m)
unfolding behind
behind-perm e [] m p = Perm.cons e p
behind-perm e (d ∷ l) m p = Perm.trans (Perm.swap e d l) (Perm.cons e p)

front-perm : (k : Bytes) (m : Games) → Perm (front k m) m
unfolding front
front-perm k [] = Perm.refl []
front-perm k (e ∷ m) =
    ground (arith, Perm.refl (e ∷ m), behind-perm e (front k m) m (front-perm k m))

abbrev front_walk : Bytes → GameWalk
front_walk k = record { order = front k; order-perm = front-perm k }

front_head :
    (k : Bytes) (g : Game) (m : Games)
    → lookup k m ≡ some g
    → (rest : Games) × (front k m ≡ (k, g) ∷ rest)
unfolding front get
front_head k g [] e = cc
front_head k g ((j, x) ∷ m) e = elim (bytes_discrete j k) [
  | yes hit ↦ (m, ground arith)
  | no miss ↦ let (rest, p) = front_head k g m (ground arith) in ((j, x) ∷ rest, ground arith)
]

-- If several remote games have the counter, `FindByHostCounter` may return any of them: for each
-- there is an order of the map loop in which that game is found.
pub find_ambiguous :
    (h : ℕ) (r : Registry) (k : Bytes) (g : Game)
    → lookup k r.games ≡ some g
    → Answers h g
    → (w : GameWalk) × (find_by_host_counter w h r ≡ some g)
unfolding find_by_host_counter first_answer
find_ambiguous h r k g bound a =
    let (rest, p) = front_head k g r.games bound in (front_walk k, rw (p, Answers-answers_to h g a))
