-- ===== src/Lan/Broadcast.antt =====
-- lan/broadcaster.go: one call of `broadcastGames`.
use mathlib.Core.List.{mem-cons_self, mem-cons_of_mem, not-mem-nil, mem-cons, mem-cast, Mem-prop}
use mathlib.Core.Logic.Or
use wc3ts.Prelude.{
  ℕ, ◌≡◌, ◌↔◌, refl, ap, sym, ◌∙◌, List, [], ◌∷◌, ◌++◌, Bytes, bytes_discrete, ite, Option, none,
  some, Mem, append_assoc, append-nil, map, Bool-cases, Option-cases, inl, inr, ℕ_discrete,
  if◌then◌else◌,
}
use wc3ts.Prelude.Assoc.{Assoc, get, put, get-put, IsMap, put-IsMap}
use wc3ts.Prelude.Walk.{Walk, mem-order, order-mem, get_of_mem, mem_of_get}
use wc3ts.Game.{Game, is_remote, key}
use wc3ts.Lan.{
  Broadcaster, announce, cancel, broadcast_games, send_raw_game_info, send_refresh_game,
  send_decreate_game,
}

abbrev pub counter_of : Bytes → Assoc Bytes ℕ → Option ℕ
counter_of k m = get bytes_discrete k m

-- The packets for one game.
unfoldable pub announcement : ℕ → Game → List Bytes
announcement port g =
    send_raw_game_info port g
    ++ (send_refresh_game g.info.host_counter g.info.slots_used g.info.slots_available ∷ [])

-- The packets for the remote games of a list, in its order.
unfoldable pub announcements : ℕ → List Game → List Bytes
announcements port [] = []
announcements port (g ∷ gs) =
    if is_remote g.source
    then announcement port g ++ announcements port gs
    else announcements port gs

-- The host counter of the last remote game of the list that has the key, or else the given one.
unfoldable pub last_counter : Bytes → List Game → Option ℕ → Option ℕ
last_counter k [] o = o
last_counter k (g ∷ gs) o =
    last_counter k gs (
      if is_remote g.source then ite (bytes_discrete (key g) k) (some g.info.host_counter) o else o)

-- The counter under which a remote game of the list is listed.
abbrev pub listed : Bytes → List Game → Option ℕ
listed k gs = last_counter k gs none

pub counter_of-nil : (k : Bytes) → counter_of k [] ≡ listed k []
unfolding last_counter get
counter_of-nil k = refl

announce-packets :
    (port : ℕ) (gs : List Game) (m : Assoc Bytes ℕ) (sent : List Bytes)
    → (announce port gs m sent).1 ≡ sent ++ announcements port gs
unfolding announce announcements announcement
announce-packets port [] m sent = sym (append-nil sent)
announce-packets port (g ∷ gs) m sent = elim (Bool-cases (is_remote g.source)) [
  | inr e ↦ rw (e, announce) (announce-packets port gs m sent)
  | inl e ↦
      rw (e, announce)
        (announce-packets port gs (put bytes_discrete (key g) g.info.host_counter m)
            (sent ++ announcement port g)
          ∙ append_assoc sent (announcement port g) (announcements port gs))
]

announce-counters :
    (k : Bytes) (port : ℕ) (gs : List Game) (m : Assoc Bytes ℕ) (sent : List Bytes)
    → counter_of k (announce port gs m sent).0 ≡ last_counter k gs (counter_of k m)
unfolding announce last_counter
announce-counters k port [] m sent = refl
announce-counters k port (g ∷ gs) m sent = elim (Bool-cases (is_remote g.source)) [
  | inr e ↦ rw (e, announce) (announce-counters k port gs m sent)
  | inl e ↦
      rw (e, announce)
        (announce-counters k port gs (put bytes_discrete (key g) g.info.host_counter m) _
          ∙ ap (last_counter k gs) (get-put bytes_discrete (key g) k g.info.host_counter m))
]

announce-IsMap :
    (port : ℕ) (gs : List Game) (m : Assoc Bytes ℕ) (sent : List Bytes)
    → IsMap bytes_discrete m
    → IsMap bytes_discrete (announce port gs m sent).0
unfolding announce
announce-IsMap port [] m sent u = u
announce-IsMap port (g ∷ gs) m sent u = elim (Bool-cases (is_remote g.source)) [
  | inr e ↦ rw (e, announce) (announce-IsMap port gs m sent u)
  | inl e ↦
      rw (e, announce)
        (announce-IsMap port gs _ _ (put-IsMap bytes_discrete (key g) g.info.host_counter m u))
]

-- The entries whose key is not among the current ones.
unfoldable pub gone : Assoc Bytes ℕ → Assoc Bytes ℕ → Assoc Bytes ℕ
gone current [] = []
gone current ((k, h) ∷ rest) = elim (counter_of k current) [
  | some _ ↦ gone current rest
  | none ↦ (k, h) ∷ gone current rest
]

abbrev pub cancellations : Assoc Bytes ℕ → List Bytes
cancellations = map (λ e. send_decreate_game e.1)

cancel-packets :
    (current entries : Assoc Bytes ℕ) (sent : List Bytes)
    → cancel current entries sent ≡ sent ++ cancellations (gone current entries)
unfolding cancel gone
cancel-packets current [] sent = sym (append-nil sent)
cancel-packets current ((k, h) ∷ rest) sent = elim (Option-cases (counter_of k current)) [
  | inl e ↦
      rw (e, gone)
        (cancel-packets current rest (sent ++ send_decreate_game h ∷ [])
          ∙ append_assoc sent (send_decreate_game h ∷ []) (cancellations (gone current rest)))
  | inr (x, e) ↦ rw (e, gone) (cancel-packets current rest sent)
]

mem_of_mem-gone :
    (current entries : Assoc Bytes ℕ) (k : Bytes) (h : ℕ)
    → Mem (k, h) (gone current entries)
    → Mem (k, h) entries × (counter_of k current ≡ none)
unfolding gone
mem_of_mem-gone current [] k h m = absurd (not-mem-nil m)
mem_of_mem-gone current ((j, x) ∷ rest) k h m =
    let deeper : Mem (k, h) (gone current rest)
        → Mem (k, h) ((j, x) ∷ rest) × (counter_of k current ≡ none) =
      λ l. let (m', e) = mem_of_mem-gone current rest k h l in (mem-cons_of_mem (j, x) m', e) in
    elim (Option-cases (counter_of j current)) [
      | inl e ↦
          Or.elim (hlevel (Mem-prop, ℕ_discrete)) (mem-cons.0 (rw (e, gone) at m))
            (λ same. (mem-cast same mem-cons_self, ap (λ d. counter_of d.0 current) same ∙ e))
            deeper
      | inr (y, e) ↦ deeper (rw (e, gone) at m)
    ]

mem-gone_of_mem :
    (current entries : Assoc Bytes ℕ) (k : Bytes) (h : ℕ)
    → Mem (k, h) entries
    → counter_of k current ≡ none
    → Mem (k, h) (gone current entries)
unfolding gone
mem-gone_of_mem current [] k h m e = absurd (not-mem-nil m)
mem-gone_of_mem current ((j, x) ∷ rest) k h m e =
    Or.elim Mem-prop (mem-cons.0 m)
      (λ same.
        rw (ap (λ d. counter_of d.0 current) (sym same) ∙ e, gone) (mem-cast same mem-cons_self))
      (λ later. elim (Option-cases (counter_of j current)) [
        | inl c ↦ rw (c, gone) (mem-cons_of_mem (j, x) (mem-gone_of_mem current rest k h later e))
        | inr (y, c) ↦ rw (c, gone) (mem-gone_of_mem current rest k h later e)
      ])

module _ (w : Walk (Bytes × ℕ)) (b : Broadcaster) where
  current_keys : Assoc Bytes ℕ
  current_keys = (announce b.proxy_port b.games [] []).0

  unfoldable pub cancelled : Assoc Bytes ℕ
  unfolding current_keys
  cancelled = gone current_keys (w.order b.previous_game_keys)

  pub broadcast-packets :
      (broadcast_games w b).1 ≡ announcements b.proxy_port b.games ++ cancellations cancelled
  unfolding broadcast_games cancelled
  broadcast-packets =
      cancel-packets current_keys (w.order b.previous_game_keys) _
      ∙ ap (λ l. l ++ cancellations cancelled) (announce-packets b.proxy_port b.games [] [])

  pub broadcast-counters :
      (k : Bytes) → counter_of k (broadcast_games w b).0.previous_game_keys ≡ listed k b.games
  unfolding broadcast_games get
  broadcast-counters k = announce-counters k b.proxy_port b.games [] []

  pub broadcast-IsMap : IsMap bytes_discrete (broadcast_games w b).0.previous_game_keys
  unfolding broadcast_games
  broadcast-IsMap = announce-IsMap b.proxy_port b.games [] [] tt

  -- An entry of the previous broadcast is cancelled exactly when its key is not listed any more.
  pub mem-cancelled :
      (k : Bytes) (h : ℕ)
      → IsMap bytes_discrete b.previous_game_keys
      → Mem (k, h) cancelled
        ↔ ((counter_of k b.previous_game_keys ≡ some h) × (listed k b.games ≡ none))
  unfolding cancelled get
  mem-cancelled k h u = (
    λ m.
        let (m', e) = mem_of_mem-gone current_keys (w.order b.previous_game_keys) k h m in
        (
          get_of_mem bytes_discrete (hlevel ℕ_discrete) k h b.previous_game_keys u
              (mem-order w b.previous_game_keys m'),
          sym (announce-counters k b.proxy_port b.games [] []) ∙ e,
        ),
    λ t.
        mem-gone_of_mem current_keys (w.order b.previous_game_keys) k h
          (order-mem w b.previous_game_keys
            (mem_of_get bytes_discrete (hlevel ℕ_discrete) k h b.previous_game_keys t.0))
          (announce-counters k b.proxy_port b.games [] [] ∙ t.1),
  )
