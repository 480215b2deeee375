-- ===== src/App/Consistent.antt =====
-- cmd/wc3ts/run.go: the running program, and how its parts go together.
use Prim.Native.Nat.{min}
use mathlib.Core.List.Perm
use wc3ts.Prelude.{
  ℕ, inl, inr, ◌≡◌, refl, sym, ap, subst, ◌∙◌, true, List, [], ◌∷◌, Option, none, some, Bytes, Perm,
  arith,
}
use wc3ts.Prelude.Assoc.{values}
use wc3ts.W3gs.{Decoder}
use wc3ts.Game.{Game}
use wc3ts.Game.Registry.{Registry, new_registry, add}
use wc3ts.Game.Registry.View.{IsValid, new-IsValid, snapshot-perm}
use wc3ts.Lan.{on_games_changed, new_broadcaster, open_broadcaster, broadcast_games}
use wc3ts.Peer.{fresh_manager, new_manager, Arrival, receive, set_version, on_peers_changed}
use wc3ts.Config.{Config}
use wc3ts.Proxy.{NewProxy, tcp_proxy, listen_error, unexpected_listener_type}
use wc3ts.Tailscale.{
  NetworkMap, Discovery, extract_self_ip, update_from_net_map, new_discovery, fetch_self_ip,
}
use wc3ts.Peer.Discover.{receive-IsValid}
use wc3ts.Peer.Calls.{receive-Calls, adding}
use wc3ts.Prelude.Int.{pos}
use wc3ts.App.{
  App, AppEvent, net_map, probe_tick, datagram, broadcast_tick, connection, search_query,
  version_chosen, refresh_chosen, app_step, app_run, games_changed, peers_changed, safe_uint16,
  System, services, init_services, init_with, services_on, run_exec,
}

-- The broadcaster has the games of the registry, the manager has the peers of the discovery, and
-- the port that is broadcast is the proxy's.
pub record Consistent (a : App) : Type 0 where
  pub valid : IsValid a.registry
  pub calls_back : a.registry.on_change ≡ true
  pub same_games : Perm a.broadcaster.games (values a.registry.games)
  pub discovery_calls : a.discovery.on_change ≡ true
  pub same_peers : a.peer_manager.peers ≡ a.discovery.peers
  pub same_port : a.broadcaster.proxy_port ≡ min a.proxy_port 65535

-- The callback is called with the games of the new registry, or nothing has changed.
abbrev pub Called : Registry → Registry × Option (List Game) → Type 0
Called r (r', none) = r' ≡ r
Called r (r', some l) = (r'.on_change ≡ true) × Perm l (values r'.games)

added-Called :
    (arr : Arrival) (r : Registry) (g : Game) → r.on_change ≡ true → Called r (adding arr r g)
unfolding add
added-Called arr r g e = rw e (refl, snapshot-perm arr.moment.walk _)

receive-Called :
    (decode : Decoder) (arr : Arrival) (r : Registry)
    → r.on_change ≡ true
    → Called r (receive decode arr r)
receive-Called decode arr r e = elim (receive-Calls decode arr r) [
  | inl same ↦ subst (Called r) (sym same) refl
  | inr (g, sent, done) ↦ subst (Called r) (sym done) (added-Called arr r g e)
]

games_changed-Consistent :
    (a : App) (r : Registry) (call : Option (List Game))
    → Called a.registry (r, call)
    → IsValid r
    → Consistent a
    → Consistent (games_changed call (record a { registry = r })).0
unfolding games_changed on_games_changed
games_changed-Consistent a r none e v k = record {
  valid = v;
  calls_back = ap (λ x. x.on_change) e ∙ k.calls_back;
  same_games = subst (λ x. Perm a.broadcaster.games (values x.games)) (sym e) k.same_games;
  discovery_calls = k.discovery_calls;
  same_peers = k.same_peers;
  same_port = k.same_port;
}
games_changed-Consistent a r (some l) e v k = record {
  valid = v;
  calls_back = e.0;
  same_games = e.1;
  discovery_calls = k.discovery_calls;
  same_peers = k.same_peers;
  same_port = k.same_port;
}

on_change-extract_self_ip :
    (nm : NetworkMap) (d : Discovery) → (extract_self_ip nm d).on_change ≡ d.on_change
unfolding extract_self_ip
on_change-extract_self_ip nm d = ground arith

net_map-Consistent :
    (a : App) (nm : NetworkMap)
    → Consistent a
    → Consistent
        (peers_changed
          (update_from_net_map nm a.discovery).1
          (record a { discovery = (update_from_net_map nm a.discovery).0 })).0
unfolding peers_changed update_from_net_map on_peers_changed
net_map-Consistent a nm k =
    let calls = on_change-extract_self_ip nm a.discovery ∙ k.discovery_calls in
    rw calls (record {
      valid = k.valid;
      calls_back = k.calls_back;
      same_games = k.same_games;
      discovery_calls = refl;
      same_peers = refl;
      same_port = k.same_port;
    })

pub app_step-Consistent :
    (decode : Decoder) (e : AppEvent) (a : App) → Consistent a → Consistent (app_step decode e a).0
unfolding app_step
app_step-Consistent decode (net_map nm) a k = net_map-Consistent a nm k
app_step-Consistent decode (datagram t s from) a k =
    let arr : Arrival = record {
      moment = t;
      manager = a.peer_manager;
      datagram = s;
      from = from;
    } in
    games_changed-Consistent a (receive decode arr a.registry).0 (receive decode arr a.registry).1
      (receive-Called decode arr a.registry k.calls_back)
      (receive-IsValid decode arr a.registry k.valid) k
app_step-Consistent decode (broadcast_tick w) a k = record {
  valid = k.valid;
  calls_back = k.calls_back;
  same_games = unfold broadcast_games in k.same_games;
  discovery_calls = k.discovery_calls;
  same_peers = k.same_peers;
  same_port = unfold broadcast_games in k.same_port;
}
app_step-Consistent decode (version_chosen v) a k = record {
  valid = k.valid;
  calls_back = k.calls_back;
  same_games = k.same_games;
  discovery_calls = k.discovery_calls;
  same_peers = unfold set_version in k.same_peers;
  same_port = k.same_port;
}
app_step-Consistent decode (connection w c) a k = k
app_step-Consistent decode (search_query w from) a k = k
app_step-Consistent decode probe_tick a k = k
app_step-Consistent decode refresh_chosen a k = k

app_run-Consistent :
    (decode : Decoder) (es : List AppEvent) (a : App)
    → Consistent a
    → Consistent (app_run decode es a)
unfolding app_run
app_run-Consistent decode [] a k = k
app_run-Consistent decode (e ∷ es) a k =
    app_run-Consistent decode es (app_step decode e a).0 (app_step-Consistent decode e a k)

-- A port that does not fit is clamped.
pub safe_uint16-pos : (port : ℕ) → safe_uint16 (pos port) ≡ min port 65535
safe_uint16-pos port = ground arith

-- The services in their first state.
abbrev pub started : Config → System → ℕ → App
started cfg sys port =
    services_on cfg sys port fresh_manager (new_broadcaster (safe_uint16 (pos port)))

pub services_on-Consistent :
    (cfg : Config) (sys : System) (port : ℕ) → Consistent (started cfg sys port)
unfolding services_on new_registry new_broadcaster new_discovery fetch_self_ip set_version
services_on-Consistent cfg sys port = record {
  valid = new-IsValid true;
  calls_back = refl;
  same_games = Perm.refl [];
  discovery_calls = ground arith;
  same_peers = ground arith;
  same_port = safe_uint16-pos port;
}

init_with-services :
    (cfg : Config) (sys : System) (p : NewProxy) (a : App)
    → init_with cfg sys p ≡ services a
    → (port : ℕ) × (started cfg sys port ≡ a)
unfolding init_with new_manager open_broadcaster
init_with-services cfg sys (tcp_proxy port) a e = (port, ground arith)
init_with-services cfg sys listen_error a e = cc
init_with-services cfg sys unexpected_listener_type a e = cc

-- A program that has started: its services run, and some events have happened.
pub record Running (decode : Decoder) (a : App) : Type 0 where
  pub product : Bytes
  pub version : ℕ
  pub system : System
  pub first : App
  pub starts : run_exec product version system ≡ services first
  pub events : List AppEvent
  pub runs : app_run decode events first ≡ a

-- A program starts with its services in their first state.
pub first-started :
    (product : Bytes) (version : ℕ) (sys : System) (a : App)
    → run_exec product version sys ≡ services a
    → (cfg : Config) × (port : ℕ) × (started cfg sys port ≡ a)
unfolding run_exec init_services
first-started product version sys a starts =
    let (port, e) = init_with-services _ sys _ a starts in (_, port, e)

pub running-services :
    (decode : Decoder) (a : App) (k : Running decode a)
    → (cfg : Config) × (port : ℕ) × (started cfg k.system port ≡ k.first)
running-services decode a k = first-started k.product k.version k.system k.first k.starts

-- Whatever happens to a program that has started, in whatever order: its registry is valid, the
-- broadcaster has the games of the registry, the manager has the peers of the discovery, and the
-- port that is broadcast is the port on which the proxy listens, or 65535 if that is smaller.
pub running-Consistent : (decode : Decoder) (a : App) → Running decode a → Consistent a
running-Consistent decode a k =
    let (cfg, port, e) = running-services decode a k in
    subst Consistent k.runs (
      app_run-Consistent decode k.events k.first
        (subst Consistent e (services_on-Consistent cfg k.system port)))
