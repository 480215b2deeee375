-- ===== src/App/Silent.antt =====
-- cmd/wc3ts/run.go and lan/broadcaster.go: the broadcasts of the running program.
use mathlib.Core.List.Perm
use wc3ts.Prelude.{ℕ, ◌≡◌, refl, sym, ap, subst, ◌∙◌, List, [], ◌∷◌, Option, none, some, All, Bytes}
use wc3ts.Prelude.Assoc.{get}
use wc3ts.Prelude.Walk.{Walk}
use wc3ts.Net.{Addr, UdpAddr, addr_from_slice}
use wc3ts.W3gs.{Decoder}
use wc3ts.Tailscale.{Peer, update_from_net_map}
use wc3ts.Game.{Game, is_remote}
use wc3ts.Game.Key.{IsV4}
use wc3ts.Game.Registry.{lookup, new_registry}
use wc3ts.Game.Registry.Values.{mem-values}
use wc3ts.Lan.{broadcast_games, on_games_changed, new_broadcaster}
use wc3ts.Lan.Broadcast.{announcements}
use wc3ts.Lan.Listed.{only_announces}
use wc3ts.Peer.{Arrival, Moment, receive}
use wc3ts.Config.{Config}
use wc3ts.App.{
  App, AppEvent, net_map, datagram, broadcast_tick, connection, search_query, version_chosen,
  refresh_chosen, probe_tick, app_step, app_run, games_changed, peers_changed, services_on, System,
}
use wc3ts.App.Consistent.{
  Consistent, started, Running, app_step-Consistent, services_on-Consistent, running-services,
  running-Consistent,
}
use wc3ts.App.Keeps.{Keeps, receive-Keeps, tick-Keeps}

-- A datagram of an IP address comes from an IPv4 address, as on a socket that is opened for `udp4`.
abbrev pub FromV4 : AppEvent → Type 0
FromV4 (datagram t s (some addr)) = (ip : Addr) → addr_from_slice addr.ip ≡ some ip → IsV4 ip
FromV4 _ = Unit

pub games_changed-keys :
    (call : Option (List Game)) (a : App)
    → ((games_changed call a).0.registry ≡ a.registry)
      × ((games_changed call a).0.broadcaster.previous_game_keys ≡ a.broadcaster.previous_game_keys)
unfolding games_changed on_games_changed
games_changed-keys none a = (refl, refl)
games_changed-keys (some games) a = (refl, refl)

pub peers_changed-keys :
    (call : Option (List Peer)) (a : App)
    → ((peers_changed call a).0.registry ≡ a.registry)
      × ((peers_changed call a).0.broadcaster ≡ a.broadcaster)
unfolding peers_changed
peers_changed-keys none a = (refl, refl)
peers_changed-keys (some peers) a = (refl, refl)

abbrev KeepsApp : App → Type 0
KeepsApp a = Keeps a.registry a.broadcaster.previous_game_keys

IsV4-sender :
    (t : Moment) (s : Bytes) (from : Option UdpAddr)
    → FromV4 (datagram t s from)
    → (addr : UdpAddr) (ip : Addr) → from ≡ some addr
    → addr_from_slice addr.ip ≡ some ip
    → IsV4 ip
IsV4-sender t s none h addr ip e q = cc
IsV4-sender t s (some x) h addr ip e q =
    let same : x ≡ addr = cc e in h ip (ap (λ y. addr_from_slice y.ip) same ∙ q)

app_step-Keeps :
    (decode : Decoder) (e : AppEvent) (a : App)
    → FromV4 e
    → Consistent a
    → KeepsApp a
    → KeepsApp (app_step decode e a).0
unfolding app_step
app_step-Keeps decode (net_map nm) a h c k =
    let (r, b) =
      peers_changed-keys (update_from_net_map nm a.discovery).1
        (record a { discovery = (update_from_net_map nm a.discovery).0 }) in
    rw (r, b) k
app_step-Keeps decode (datagram t s from) a h c k =
    let arr : Arrival = record {
      moment = t;
      manager = a.peer_manager;
      datagram = s;
      from = from;
    } in
    let (r, b) =
      games_changed-keys (receive decode arr a.registry).1
        (record a { registry = (receive decode arr a.registry).0 }) in
    rw (r, b)
      (receive-Keeps decode arr a.registry a.broadcaster.previous_game_keys (IsV4-sender t s from h)
        c.valid k)
app_step-Keeps decode (broadcast_tick w) a h c k = tick-Keeps w a c k
app_step-Keeps decode (version_chosen v) a h c k = k
app_step-Keeps decode (connection w x) a h c k = k
app_step-Keeps decode (search_query w from) a h c k = k
app_step-Keeps decode probe_tick a h c k = k
app_step-Keeps decode refresh_chosen a h c k = k

app_run-Keeps :
    (decode : Decoder) (es : List AppEvent) (a : App)
    → All FromV4 es
    → Consistent a
    → KeepsApp a
    → KeepsApp (app_run decode es a)
unfolding app_run
app_run-Keeps decode [] a h c k = k
app_run-Keeps decode (e ∷ es) a (h, hs) c k =
    app_run-Keeps decode es (app_step decode e a).0 hs (app_step-Consistent decode e a c)
      (app_step-Keeps decode e a h c k)

services_on-Keeps : (cfg : Config) (sys : System) (port : ℕ) → KeepsApp (started cfg sys port)
unfolding services_on new_registry new_broadcaster get
services_on-Keeps cfg sys port = record { one_each = tt; hosts = λ k g e. cc; kept = λ k h e. cc }

-- In a program that has started, whatever has happened, if datagrams come from IPv4 addresses only:
-- a broadcast consists of the announcements of the remote games; no game is ever cancelled.
pub running-announces :
    (decode : Decoder) (a : App) (w : Walk (Bytes × ℕ)) (k : Running decode a)
    → All FromV4 k.events
    → (broadcast_games w a.broadcaster).1
      ≡ announcements a.broadcaster.proxy_port a.broadcaster.games
running-announces decode a w k from_v4 =
    let (cfg, port, e) = running-services decode a k in
    let keeps : KeepsApp a = subst KeepsApp k.runs (
      app_run-Keeps decode k.events k.first from_v4
        (subst Consistent e (services_on-Consistent cfg k.system port))
        (subst KeepsApp e (services_on-Keeps cfg k.system port))) in
    let c = running-Consistent decode a k in
    only_announces w a.broadcaster keeps.one_each (λ j h was.
      let (g, known) = keeps.kept j h was in
      (
        g,
        record {
          here = (Perm.mem_iff c.same_games).1 (
              (mem-values a.registry g c.valid).1 (
                subst (λ i. lookup i a.registry.games ≡ some g)
                  (sym (c.valid.keyed j g known.bound)) known.bound));
          remote = ap is_remote known.remote;
          same_key = c.valid.keyed j g known.bound;
        },
      ))
