-- ===== src/App.antt =====
-- cmd/wc3ts/run.go: the parts of the program, connected. Each service runs in a goroutine of its
-- own; since the locks make each call one step, what the program does is a sequence of events, in
-- any order. The terminal interface is where messages are sent to.
pub mod Consistent
pub mod Joining
pub mod Silent
pub mod Setup
pub mod Services
mod Keeps
use wc3ts.Prelude.{
  ℕ, suc, ◌^◌, ◌-◌, Bool, true, false, List, [], ◌∷◌, ◌++◌, map, Option, none, some, Bytes, ltb,
  if◌then◌else◌,
}
use wc3ts.Prelude.Walk.{Walk}
use wc3ts.Prelude.Int.{ℤ, pos, negsuc}
use wc3ts.Net.{Addr, UdpAddr, is_valid}
use wc3ts.W3gs.{GameVersion, Decoder}
use wc3ts.Config.{Config, default_config}
use wc3ts.Game.{Game}
use wc3ts.Game.Registry.{Registry, GameWalk, new_registry}
use wc3ts.Lan.{Broadcaster, open_broadcaster, on_games_changed, broadcast_games}
use wc3ts.Tailscale.{
  Peer, NetworkMap, Discovery, Fetched, daemon_error, address, new_discovery, fetch_self_ip,
  update_from_net_map,
}
use wc3ts.Peer.{
  Manager, new_manager, new_responder, Moment, Arrival, Probe, Reply, set_version, refresh,
  probe_all_peers, on_peers_changed, receive, on_search_game,
}
use wc3ts.Proxy.{
  ListenAddr, NewProxy, listen_error, unexpected_listener_type, tcp_proxy, new_tcp_proxy,
  Connection, Effect, handle_connection,
}

abbrev pub safe_uint16 : ℤ → ℕ
safe_uint16 (negsuc n) = 0
safe_uint16 (pos n) = if ltb 65535 n then 65535 else n

pub record App : Type 0 where
  pub cfg : Config
  pub registry : Registry
  pub proxy_port : ℕ
  pub discovery : Discovery
  pub peer_manager : Manager
  -- the address of the responder, if there is one
  pub responder : Option UdpAddr
  pub broadcaster : Broadcaster

-- What the system answers when the services are set up: the address of the proxy's listener,
-- whether the sockets can be opened, and the addresses that the Tailscale daemon reports.
pub record System : Type 0 where
  pub listener : Option ListenAddr
  pub manager_socket : Bool
  pub broadcaster_socket : Bool
  pub status : Option (List Addr)
  pub responder_socket : Bool

pub data Started : Type 0 where
  proxy_error manager_error broadcaster_error : Started
  services : App → Started

-- A responder is made if the daemon gives an address and the socket can be opened.
pub responder_on : Bool → Fetched → Option UdpAddr
responder_on socket daemon_error = none
responder_on socket (address ip) = if is_valid ip then new_responder socket ip else none

-- The services, from the manager and the broadcaster that were made.
unfoldable pub services_on : Config → System → ℕ → Manager → Broadcaster → App
unfolding responder_on
services_on cfg sys port manager broadcaster =
    let (discovery, fetched) = fetch_self_ip sys.status (new_discovery true) in
    record {
      cfg = cfg;
      registry = new_registry true;
      proxy_port = port;
      discovery = discovery;
      peer_manager = set_version cfg.game_version manager;
      responder = responder_on sys.responder_socket fetched;
      broadcaster = broadcaster;
    }

pub init_with : Config → System → NewProxy → Started
unfolding services_on
init_with cfg sys (tcp_proxy port) = elim (new_manager sys.manager_socket) [
  | none ↦ manager_error
  | some manager ↦ elim (open_broadcaster sys.broadcaster_socket (safe_uint16 (pos port))) [
    | none ↦ broadcaster_error
    | some broadcaster ↦ services (services_on cfg sys port manager broadcaster)
  ]
]
init_with cfg sys listen_error = proxy_error
init_with cfg sys unexpected_listener_type = proxy_error

pub init_services : Config → System → Started
unfolding init_with
init_services cfg sys = init_with cfg sys (new_tcp_proxy sys.listener).0

-- The version that the user has chosen stands in place of the default one.
abbrev pub with_version : ℕ → Config → Config
with_version v cfg = record cfg { game_version = record cfg.game_version { version = v } }

-- `runExec`, up to the start of the services
unfoldable pub run_exec : Bytes → ℕ → System → Started
unfolding init_services
run_exec product_tft version sys =
    init_services (with_version version (default_config product_tft)) sys

pub data AppEvent : Type 0 where
  net_map : NetworkMap → AppEvent
  probe_tick : AppEvent
  datagram : Moment → Bytes → Option UdpAddr → AppEvent
  broadcast_tick : Walk (Bytes × ℕ) → AppEvent
  connection : GameWalk → Connection → AppEvent
  search_query : GameWalk → Option UdpAddr → AppEvent
  -- the callbacks of the terminal interface
  version_chosen : ℕ → AppEvent
  refresh_chosen : AppEvent

pub data Output : Type 0 where
  -- messages to the terminal interface
  games_msg : List Game → Output
  peers_msg : List Peer → Output
  -- packets
  probe : Probe → Output
  lan_packet : Bytes → Output
  reply : Reply → Output
  proxied : List Effect → Output

-- `onGamesChanged`, if the registry calls it
unfoldable pub games_changed : Option (List Game) → App → App × List Output
games_changed none a = (a, [])
games_changed (some games) a =
    (record a { broadcaster = on_games_changed games a.broadcaster }, games_msg games ∷ [])

-- `onPeersChanged`, if the discovery calls it
unfoldable pub peers_changed : Option (List Peer) → App → App × List Output
peers_changed none a = (a, [])
peers_changed (some peers) a =
    let (manager, probes) = on_peers_changed peers a.peer_manager in
    (record a { peer_manager = manager }, peers_msg peers ∷ map probe probes)

-- `versionCallback`
abbrev choose_version : ℕ → App → App
choose_version v a =
    let version = record a.cfg.game_version { version = v } in
    record a { peer_manager = set_version version a.peer_manager }

abbrev pub is_some : Option UdpAddr → Bool
is_some none = false
is_some (some addr) = true

-- What the services do at an event.
unfoldable pub app_step : Decoder → AppEvent → App → App × List Output
unfolding games_changed peers_changed
app_step decode (net_map nm) a =
    let (discovery, call) = update_from_net_map nm a.discovery in
    peers_changed call (record a { discovery = discovery })
app_step decode probe_tick a = (a, map probe (probe_all_peers a.peer_manager))
app_step decode (datagram t s from) a =
    let arrival : Arrival = record {
      moment = t;
      manager = a.peer_manager;
      datagram = s;
      from = from;
    } in
    let (registry, call) = receive decode arrival a.registry in
    games_changed call (record a { registry = registry })
app_step decode (broadcast_tick w) a =
    let (broadcaster, packets) = broadcast_games w a.broadcaster in
    (record a { broadcaster = broadcaster }, map lan_packet packets)
app_step decode (connection w c) a = (a, proxied (handle_connection decode w a.registry c) ∷ [])
app_step decode (search_query w from) a =
    (a, if is_some a.responder then map reply (on_search_game w from a.registry) else [])
app_step decode (version_chosen v) a = (choose_version v a, [])
app_step decode refresh_chosen a = (a, map probe (refresh a.peer_manager))

unfoldable pub app_run : Decoder → List AppEvent → App → App
unfolding app_step
app_run decode [] a = a
app_run decode (e ∷ es) a = app_run decode es (app_step decode e a).0
