-- ===== src/Network/Letters.antt =====
-- cmd/wc3ts/run.go on several machines: what an event on one machine sends and changes.
use mathlib.Core.List.{not-mem-nil, mem-cons, mem-cast, mem-cons_self, mem-cons_of_mem}
use mathlib.Core.Logic.Or
use mathlib.Core.Logic.{∥∥₁_map, ∥∥₁_elim}
use wc3ts.Prelude.{
  ◌≡◌, refl, ap, subst, List, [], ◌∷◌, Option, none, some, Bytes, Mem, map, arith, if◌then◌else◌,
}
use wc3ts.Net.{Addr, UdpAddr, addr_discrete}
use wc3ts.W3gs.{Decoder}
use wc3ts.Game.{Game}
use wc3ts.Game.Registry.{GameWalk}
use wc3ts.Peer.{Arrival, Moment, Reply, Probe, receive, on_search_game, on_peers_changed}
use wc3ts.Peer.Respond.{IsOffered, on_search_game_lem}
use wc3ts.Proxy.{Effect}
use wc3ts.App
use wc3ts.App.{App, AppEvent, Output, app_step, games_changed, peers_changed, is_some}
use wc3ts.App.Consistent.{Consistent}
use wc3ts.App.Silent.{games_changed-keys, peers_changed-keys}
use wc3ts.Tailscale.{Peer}
use wc3ts.Network.{
  Letter, put_app, letters, Quiet, of_net_map, of_probe_tick, of_broadcast_tick, of_connection,
  of_search_query, of_version, of_refresh,
}

pub put_app_all :
    (P : Addr → App → Type 0) (i : Addr) (a : App) (apps : Addr → App)
    → P i a
    → ((j : Addr) → P j (apps j))
    → (j : Addr) → P j (put_app i a apps j)
unfolding put_app
put_app_all P i a apps new old j = elim (addr_discrete i j) [
  | yes hit ↦
      let is : a ≡ put_app i a apps j = ground arith in subst (P j) is (subst (λ x. P x a) hit new)
  | no miss ↦ let is : apps j ≡ put_app i a apps j = ground arith in subst (P j) is (old j)
]

letters-probes : (i : Addr) (l : List Probe) → letters i (map App.probe l) ≡ []
unfolding letters
letters-probes i [] = refl
letters-probes i (p ∷ l) = letters-probes i l

letters-packets : (i : Addr) (l : List Bytes) → letters i (map App.lan_packet l) ≡ []
unfolding letters
letters-packets i [] = refl
letters-packets i (p ∷ l) = letters-packets i l

-- The letter has a reply of the list.
abbrev Has : Addr → List Reply → Letter → Type 0
Has i rs l = (l.machine ≡ i) × Mem l.reply rs

letters-replies :
    (i : Addr) (rs : List Reply) (l : Letter)
    → Mem l (letters i (map App.reply rs))
    → ∥ Has i rs l ∥₁
unfolding letters
letters-replies i [] l m = absurd (not-mem-nil m)
letters-replies i (r ∷ rs) l m =
    Or.elim squash₁ (mem-cons.0 m)
      (λ same. ∣ (ap (λ x. x.machine) same, mem-cast (ap (λ x. x.reply) same) mem-cons_self) ∣₁)
      (λ later. ∥∥₁_map (letters-replies i rs l later) (λ h. (h.0, mem-cons_of_mem r h.1)))

letters-games :
    (i : Addr) (call : Option (List Game)) (a : App) → letters i (games_changed call a).1 ≡ []
unfolding games_changed letters
letters-games i none a = refl
letters-games i (some games) a = refl

letters-peers :
    (i : Addr) (call : Option (List Peer)) (a : App) → letters i (peers_changed call a).1 ≡ []
unfolding peers_changed letters
letters-peers i none a = refl
letters-peers i (some peers) a = letters-probes i (on_peers_changed peers a.peer_manager).1

letters-proxied : (i : Addr) (es : List Effect) → letters i (App.proxied es ∷ []) ≡ []
unfolding letters
letters-proxied i es = refl

letters-nil : (i : Addr) → letters i [] ≡ []
unfolding letters
letters-nil i = refl

pub none_of : {B : Type 0} {ls : List Letter} {l : Letter} → ls ≡ [] → Mem l ls → B
none_of e m = absurd (not-mem-nil (subst (Mem _) e m))

-- The letter is of this machine, and has the bytes of a game that is offered.
abbrev pub Offers : Addr → App → Letter → Type 0
Offers i a l =
    (l.machine ≡ i) × (g : Game) × IsOffered a.registry g × (l.reply.payload ≡ g.raw_data)

letters-search :
    (i : Addr) (w : GameWalk) (from r : Option UdpAddr) (a : App) (l : Letter)
    → Consistent a
    → Mem l (letters i (if is_some r then map App.reply (on_search_game w from a.registry) else []))
    → ∥ Offers i a l ∥₁
letters-search i w from none a l c m = none_of (letters-nil i) m
letters-search i w none (some r) a l c m = ∥∥₁_elim (letters-replies i _ l m) squash₁ (λ h.
    absurd (not-mem-nil (subst (Mem l.reply) (on_search_game_lem w a.registry c.valid).0 h.1)))
letters-search i w (some addr) (some r) a l c m = ∥∥₁_elim (letters-replies i _ l m) squash₁ (λ h.
    ∥∥₁_map (((on_search_game_lem w a.registry c.valid).1 addr l.reply).0 h.1)
      (λ t. (h.0, t.0, t.1, ap (λ (x : Reply). x.payload) t.2)))

-- A quiet event leaves the registry as it is, and sends only what is offered.
pub Quiet-registry :
    (decode : Decoder) (e : AppEvent) (a : App)
    → Quiet e
    → (app_step decode e a).0.registry ≡ a.registry
unfolding app_step
Quiet-registry decode e a (of_net_map nm) = (peers_changed-keys _ _).0
Quiet-registry decode e a of_probe_tick = refl
Quiet-registry decode e a (of_broadcast_tick w) = refl
Quiet-registry decode e a (of_connection w c) = refl
Quiet-registry decode e a (of_search_query w from) = refl
Quiet-registry decode e a (of_version v) = refl
Quiet-registry decode e a of_refresh = refl

pub Quiet-letters :
    (decode : Decoder) (i : Addr) (e : AppEvent) (a : App) (l : Letter)
    → Quiet e
    → Consistent a
    → Mem l (letters i (app_step decode e a).1)
    → ∥ Offers i a l ∥₁
unfolding app_step
Quiet-letters decode i e a l (of_net_map nm) c m = none_of (letters-peers i _ _) m
Quiet-letters decode i e a l of_probe_tick c m = none_of (letters-probes i _) m
Quiet-letters decode i e a l (of_broadcast_tick w) c m = none_of (letters-packets i _) m
Quiet-letters decode i e a l (of_connection w x) c m = none_of (letters-proxied i _) m
Quiet-letters decode i e a l (of_search_query w from) c m =
    letters-search i w from a.responder a l c m
Quiet-letters decode i e a l (of_version v) c m = none_of (letters-nil i) m
Quiet-letters decode i e a l of_refresh c m = none_of (letters-probes i _) m

-- A datagram for the program of a machine, when the state is `a`.
abbrev pub heard : Moment → Bytes → Option UdpAddr → App → Arrival
heard t d from a = record { moment = t; manager = a.peer_manager; datagram = d; from = from }

module _ (decode : Decoder) (t : Moment) (d : Bytes) (from : Option UdpAddr) (a : App) where
  pub datagram_registry :
      (app_step decode (App.datagram t d from) a).0.registry
      ≡ (receive decode (heard t d from a) a.registry).0
  unfolding app_step
  datagram_registry = (games_changed-keys _ _).0

  pub datagram_letters : (i : Addr) → letters i (app_step decode (App.datagram t d from) a).1 ≡ []
  unfolding app_step
  datagram_letters i = letters-games i _ _
