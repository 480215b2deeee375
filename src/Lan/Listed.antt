-- ===== src/Lan/Listed.antt =====
-- lan/broadcaster.go: the games that a broadcast lists.
use mathlib.Core.List.{mem-cons_self, mem-cons_of_mem, not-mem-nil, mem-cons}
use mathlib.Core.Logic.Or
use wc3ts.Prelude.{
  ℕ, ◌≡◌, ◌⊎◌, refl, sym, ap, ◌∙◌, Bool, true, false, List, [], ◌∷◌, ◌++◌, append-nil, Option, none,
  some, Bytes, bytes_discrete, ite, Mem, arith, Bool-cases, inl, inr, if◌then◌else◌,
}
use wc3ts.Prelude.Assoc.{IsMap}
use wc3ts.Prelude.Walk.{Walk}
use wc3ts.Game.{Game, key, is_remote}
use wc3ts.Lan.{Broadcaster, broadcast_games}
use wc3ts.Lan.Broadcast.{
  counter_of, last_counter, listed, announcements, cancellations, cancelled, broadcast-packets,
  mem-cancelled,
}

abbrev is_some : Option ℕ → Bool
is_some none = false
is_some (some h) = true

-- A remote game of the list that has the key.
pub record Lists (k : Bytes) (gs : List Game) (g : Game) : Type 0 where
  pub here : Mem g gs
  pub remote : is_remote g.source ≡ true
  pub same_key : key g ≡ k

later : (k : Bytes) (x : Game) (gs : List Game) (g : Game) → Lists k gs g → Lists k (x ∷ gs) g
later k x gs g l = record {
  here = mem-cons_of_mem x l.here;
  remote = l.remote;
  same_key = l.same_key;
}

-- A counter that is listed is that of a game, or was there before.
last_counter-Lists :
    (k : Bytes) (gs : List Game) (o : Option ℕ)
    → is_some (last_counter k gs o) ≡ true
    → (is_some o ≡ true) ⊎ ((g : Game) × Lists k gs g)
unfolding last_counter
last_counter-Lists k [] o e = inl e
last_counter-Lists k (x ∷ gs) o e = elim (Bool-cases (is_remote x.source)) [
  | inr c ↦ elim (last_counter-Lists k gs o (rw c at e)) [
    | inl was ↦ inl was
    | inr (g, l) ↦ inr (g, later k x gs g l)
  ]
  | inl c ↦ elim (bytes_discrete (key x) k) [
    | yes same ↦ inr (x, record { here = mem-cons_self; remote = c; same_key = same })
    | no differs ↦
        let q : (if is_remote x.source
              then ite (bytes_discrete (key x) k) (some x.info.host_counter) o
              else o)
            ≡ o =
          ground arith in
        elim (last_counter-Lists k gs o (ap (λ z. is_some (last_counter k gs z)) (sym q) ∙ e)) [
          | inl was ↦ inl was
          | inr (g, l) ↦ inr (g, later k x gs g l)
        ]
  ]
]

pub listed-Lists :
    (k : Bytes) (gs : List Game) (h : ℕ) → listed k gs ≡ some h → (g : Game) × Lists k gs g
listed-Lists k gs h e = elim (last_counter-Lists k gs none (ap is_some e)) [
  | inl was ↦ cc
  | inr found ↦ found
]

last_counter-known :
    (k : Bytes) (gs : List Game) (o : Option ℕ)
    → is_some o ≡ true
    → is_some (last_counter k gs o) ≡ true
unfolding last_counter
last_counter-known k [] o e = e
last_counter-known k (x ∷ gs) o e = last_counter-known k gs _ (ground arith)

last_counter-here :
    (k : Bytes) (gs : List Game) (o : Option ℕ) (g : Game)
    → Lists k gs g
    → is_some (last_counter k gs o) ≡ true
unfolding last_counter
last_counter-here k [] o g l = absurd (not-mem-nil l.here)
last_counter-here k (x ∷ gs) o g l =
    Or.elim (hlevel) (mem-cons.0 l.here)
      (λ same.
        let r : is_remote x.source ≡ true = ap (λ y. is_remote y.source) (sym same) ∙ l.remote in
        let q : key x ≡ k = ap key (sym same) ∙ l.same_key in
        last_counter-known k gs _ (rw r (ground arith)))
      (λ rest.
        last_counter-here k gs _ g
          (record { here = rest; remote = l.remote; same_key = l.same_key }))

no_members : {A : Type 0} (l : List A) → ((a : A) → ¬ Mem a l) → l ≡ []
no_members [] h = refl
no_members (a ∷ l) h = absurd (h a mem-cons_self)

-- If each key of the last broadcast is still listed, a broadcast only announces.
pub only_announces :
    (w : Walk (Bytes × ℕ)) (b : Broadcaster)
    → IsMap bytes_discrete b.previous_game_keys
    → ((k : Bytes) (h : ℕ)
        → counter_of k b.previous_game_keys ≡ some h
        → (g : Game) × Lists k b.games g)
    → (broadcast_games w b).1 ≡ announcements b.proxy_port b.games
only_announces w b u kept =
    let none_gone : cancelled w b ≡ [] = no_members (cancelled w b) (λ e m.
      let (was, gone) = (mem-cancelled w b e.0 e.1 u).0 m in
      let (g, l) = kept e.0 e.1 was in cc (last_counter-here e.0 b.games none g l, gone)) in
    broadcast-packets w b
    ∙ ap (λ l. announcements b.proxy_port b.games ++ cancellations l) none_gone
    ∙ append-nil _
