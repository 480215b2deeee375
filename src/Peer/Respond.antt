-- ===== src/Peer/Respond.antt =====
-- peer/responder.go: the answers to a search, and their arrival at the machine that searched.
use mathlib.Core.List.{mem-cons_self, mem-cons_of_mem, not-mem-nil, mem-cons, mem-cast, Mem-prop}
use mathlib.Core.Logic.Or
use mathlib.Core.Logic.{∥∥₁_map, ∥∥₁_elim}
use wc3ts.Prelude.{
  ℕ, ◌≤◌, ◌≡◌, ◌≢◌, ◌↔◌, refl, sym, ap, ◌∙◌, true, false, List, [], ◌∷◌, arith, Mem, Bytes, none,
  some, Bool-cases, inl, inr, length, take, take_all,
}
use wc3ts.Net.{UdpAddr, v4, addr_from_slice, is_loopback}
use wc3ts.W3gs.{GameInfo, game_info, Decoder}
use wc3ts.Game.{Game, key, is_local, source_remote}
use wc3ts.Game.Registry.{Registry, GameWalk, lookup, local_games}
use wc3ts.Game.Registry.View.{IsValid}
use wc3ts.Game.Registry.Lists.{mem-lists}
use wc3ts.Peer.{Reply, Arrival, replies, on_search_game, is_empty, receive}
use wc3ts.Peer.Discover.{receive_lem}

-- The reply for a game.
abbrev pub reply_to : UdpAddr → Game → Reply
reply_to addr g = record { payload = g.raw_data; to = addr }

is_empty-nil : (s : Bytes) → is_empty s ≡ true → s ≡ []
is_empty-nil [] e = refl
is_empty-nil (c ∷ s) e = cc

is_empty-cons : (s : Bytes) → is_empty s ≡ false → s ≢ []
is_empty-cons [] e = cc
is_empty-cons (c ∷ s) e = cc

not_empty : (s : Bytes) → s ≢ [] → is_empty s ≡ false
not_empty [] ne = absurd (ne refl)
not_empty (c ∷ s) ne = refl

mem_of_mem-replies :
    (addr : UdpAddr) (gs : List Game) (p : Reply)
    → Mem p (replies addr gs)
    → ∥ ((g : Game) × Mem g gs × (g.raw_data ≢ []) × (p ≡ reply_to addr g)) ∥₁
unfolding replies
mem_of_mem-replies addr [] p m = absurd (not-mem-nil m)
mem_of_mem-replies addr (x ∷ gs) p m =
    let deeper : Mem p (replies addr gs)
        → ∥ ((g : Game) × Mem g (x ∷ gs) × (g.raw_data ≢ []) × (p ≡ reply_to addr g)) ∥₁ =
      λ l. ∥∥₁_map (mem_of_mem-replies addr gs p l) (λ t. (t.0, mem-cons_of_mem x t.1, t.2, t.3)) in
    elim (Bool-cases (is_empty x.raw_data)) [
      | inl e ↦ deeper (rw (e, replies) at m)
      | inr e ↦
          Or.elim squash₁ (mem-cons.0 (rw (e, replies) at m))
            (λ same. ∣ (x, mem-cons_self, is_empty-cons x.raw_data e, same) ∣₁) deeper
    ]

mem-replies_of_mem :
    (addr : UdpAddr) (gs : List Game) (g : Game)
    → Mem g gs
    → g.raw_data ≢ []
    → Mem (reply_to addr g) (replies addr gs)
unfolding replies
mem-replies_of_mem addr [] g m ne = absurd (not-mem-nil m)
mem-replies_of_mem addr (x ∷ gs) g m ne =
    Or.elim Mem-prop (mem-cons.0 m)
      (λ same.
        simp (ap (λ (y : Game). is_empty y.raw_data) (sym same) ∙ not_empty g.raw_data ne)
          (mem-cast (ap (reply_to addr) same) mem-cons_self))
      (λ later.
        let rest = mem-replies_of_mem addr gs g later ne in
        elim (Bool-cases (is_empty x.raw_data)) [
          | inl e ↦ simp e rest
          | inr e ↦ simp e (mem-cons_of_mem (reply_to addr x) rest)
        ])

-- A local game of the registry that can be sent.
abbrev pub IsOffered : Registry → Game → Type 0
IsOffered r g = (lookup (key g) r.games ≡ some g) × (is_local g.source ≡ true) × (g.raw_data ≢ [])

-- A search from a UDP address is answered, to that address, with the raw data of each local game
-- of a valid registry that has raw data, and with nothing else; no remote game is passed on. An
-- event without a UDP address is not answered.
pub on_search_game_lem :
    (w : GameWalk) (r : Registry)
    → IsValid r
    → (on_search_game w none r ≡ [])
      × ((addr : UdpAddr) (p : Reply)
          → Mem p (on_search_game w (some addr) r)
            ↔ ∥ ((g : Game) × IsOffered r g × (p ≡ reply_to addr g)) ∥₁)
unfolding on_search_game
on_search_game_lem w r v = (
  refl,
  λ addr p. (
    λ m.
        ∥∥₁_map (mem_of_mem-replies addr (local_games w r) p m) (λ t.
          let (bound, here) = (mem-lists w r t.0 v).0.0 t.1 in (t.0, (bound, here, t.2), t.3)),
    λ s. ∥∥₁_elim s Mem-prop (λ t. mem-cast t.2 (
        mem-replies_of_mem addr (local_games w r) t.0 ((mem-lists w r t.0 v).0.1 (t.1.0, t.1.1))
          t.1.2)),
  ),
)

-- A reply that fits the buffer and decodes to a GameInfo packet, once it arrives on the machine
-- that searched, is recorded there as a remote game of the sender, with the very bytes that the
-- sender has; the sender's address is an IPv4 address and no loopback address.
pub reply_arrives :
    (decode : Decoder) (a : Arrival) (r : Registry) (g : Game) (to : UdpAddr) (info : GameInfo)
    (i j k l port : ℕ)
    → a.datagram ≡ (reply_to to g).payload
    → length g.raw_data ≤ 512
    → decode g.raw_data ≡ some (game_info info)
    → a.from ≡ some (record { ip = i ∷ j ∷ k ∷ l ∷ []; port = port })
    → i ≢ 127
    → (h : Game) × (lookup (key h) (receive decode a r).0.games ≡ some h)
      × (h.raw_data ≡ g.raw_data)
      × (h.info ≡ info)
      × (h.source ≡ source_remote)
      × (h.peer_ip ≡ v4 i j k l)
unfolding addr_from_slice is_loopback
reply_arrives decode a r g to info i j k l port sent fits decodes from ne =
    let same : take 512 a.datagram ≡ g.raw_data =
      ap (take 512) sent ∙ take_all 512 g.raw_data fits in
    let (h, bound, rec, _) =
      receive_lem decode a r info (record { ip = i ∷ j ∷ k ∷ l ∷ []; port = port }) (v4 i j k l)
        (ap decode same ∙ decodes) from refl in
    (h, bound, rec.same_data ∙ same, rec.same_info, (rec.there (ground arith)).0, rec.same_ip)
