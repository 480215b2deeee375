-- ===== src/Tests/Networks.antt =====
-- Two machines with the program.
use wc3ts.Prelude.{
  ◌≡◌, ◌⊎◌, refl, true, [], ◌∷◌, ◌∙◌, none, some, codes, Bytes, bytes_discrete, subst, sym, arith,
  Mem,
}
use mathlib.Core.List.{mem-cons_self}
use wc3ts.Prelude.Walk.{straight}
use wc3ts.Prelude.Assoc.{get, put}
use wc3ts.Net.{Addr, UdpAddr, v4, addr_discrete, addr_from_slice, is_loopback}
use wc3ts.Text.{to_lower}
use wc3ts.Config.{default_config}
use wc3ts.Game.{Game, key, source_local}
use wc3ts.Game.Key.{is_v4}
use wc3ts.Game.Registry.{lookup, add, new_registry}
use wc3ts.Proxy.{read_join_packet, close_client, handle_connection, new_tcp_proxy}
use wc3ts.Proxy.Handler.{Routed, served}
use wc3ts.Peer.{Moment, new_manager, new_responder, set_version, receive, on_peers_changed}
use wc3ts.Lan.{open_broadcaster}
use wc3ts.Tailscale.{
  Peer, NodeView, NetworkMap, update_from_net_map, extract_self_ip, first_ipv4, fetch_self_ip,
  new_discovery, extract_peers, extract_peer, contains, is_mobile, node_online,
}
use wc3ts.App
use wc3ts.App.{is_some, services_on, app_step, System, run_exec, with_version}
use wc3ts.App.Consistent.{started}
use wc3ts.Network.{Network, occur, say, says, acts, of_net_map, Comes, at_first, and_then}
use wc3ts.Network.Genuine.{Announced, Genuine}
use wc3ts.Network.Started.{Fresh, Comes-Announced, dials-Announced}
use wc3ts.Network.Alone.{Alone}
use wc3ts.Network.Found.{Hosted}
use wc3ts.Network.Journey.{JoinsIt, Travels, game-Travels}
use wc3ts.Tests.Data.{packet, lobby}
use wc3ts.Tests.Running.{decoder, system}
use wc3ts.Tests.Connections.{connection}

abbrev host : Addr
host = v4 100 64 0 7

abbrev guest : Addr
guest = v4 100 64 0 9

abbrev system_of : Addr → System
system_of i = record system { status = some (i ∷ []); responder_socket = true }

abbrev machines : Network
machines = record {
  apps = λ i. started (with_version 27 (default_config (codes "W3XP"))) (system_of i) 40000;
  sent = [];
  said = [];
}

machines-Fresh : Fresh machines
unfolding run_exec new_tcp_proxy new_manager open_broadcaster
machines-Fresh = record {
  product = λ i. codes "W3XP";
  version = λ i. 27;
  system = system_of;
  starts = λ i. refl;
  none_sent = refl;
  none_said = refl;
}

abbrev moment : Moment
moment = record { walk = straight; now = 30; later = 31 }

abbrev own_game : UdpAddr
own_game = record { ip = 127 ∷ 0 ∷ 0 ∷ 1 ∷ []; port = 6112 }

abbrev box_node : NodeView
box_node = record {
  valid = true;
  online = some true;
  tags = [];
  hostinfo_os = some (codes "linux");
  addresses = host ∷ [];
  computed_name = codes "box";
}

abbrev net_map : NetworkMap
net_map = record { self_node = box_node; peers = box_node ∷ [] }

-- A game opens on the host, and the guest learns of the host.
abbrev network : Network
network =
    occur decoder guest (App.net_map net_map)
      (say decoder host moment packet own_game (v4 127 0 0 1) machines)

network-Comes : Comes decoder machines network
unfolding addr_from_slice
network-Comes =
    and_then _ _ (and_then _ _ at_first (says host moment packet own_game (v4 127 0 0 1) refl))
      (acts guest (App.net_map net_map) (of_net_map net_map))

Comes-Announced_example : Genuine decoder network
Comes-Announced_example = Comes-Announced decoder machines network machines-Fresh network-Comes

dials-Announced_example :
    (handle_connection decoder straight (network.apps host).registry connection ≡ close_client ∷ [])
    ⊎ ((raw : Bytes) × (g : Game) × Routed decoder (network.apps host).registry connection raw g
        × (handle_connection decoder straight (network.apps host).registry connection
            ≡ served connection raw g)
        × Announced decoder network.said g.peer_ip g)
dials-Announced_example =
    dials-Announced decoder machines network host straight connection machines-Fresh network-Comes

abbrev hosted : Game
hosted = record {
  info = lobby 3;
  raw_data = packet;
  source = source_local;
  peer_ip = v4 127 0 0 1;
  peer_name = codes "local";
  first_seen = 30;
  last_seen = 31;
}

abbrev box : Peer
box = record { name = codes "box"; ip = host; online = true; os = codes "linux" }

is_hosted : lookup (key hosted) (network.apps host).registry.games ≡ some hosted
unfolding get occur addr_discrete say app_step receive addr_from_slice add services_on new_registry
    put key is_loopback
is_hosted = refl

knows_box : (network.apps guest).peer_manager.peers ≡ box ∷ []
unfolding occur addr_discrete app_step update_from_net_map extract_self_ip first_ipv4 say
    services_on fetch_self_ip new_discovery on_peers_changed extract_peers extract_peer contains
    is_mobile node_online bytes_discrete to_lower
knows_box = refl

has_responder : is_some (network.apps host).responder ≡ true
unfolding occur addr_discrete say app_step receive addr_from_slice add services_on new_registry
    fetch_self_ip first_ipv4 new_responder
has_responder = refl

has_version : (network.apps guest).peer_manager.version.version ≡ 27
unfolding occur addr_discrete app_step update_from_net_map extract_self_ip first_ipv4 say
    services_on fetch_self_ip new_discovery on_peers_changed set_version
has_version = refl

hosted-Hosted : Hosted network host guest hosted
hosted-Hosted = record {
  ipv4 = is_v4 100 64 0 7;
  far = unfold is_loopback in refl;
  bound = is_hosted;
  local = refl;
  long = omega arith;
  answers = has_responder;
  peer = box;
  known_peer = subst (Mem box) (sym knows_box) mem-cons_self;
  there = refl;
  online = refl;
  has_version = λ e. absurd (omega (arith, e, has_version));
}

abbrev socket : UdpAddr
socket = record { ip = 100 ∷ 64 ∷ 0 ∷ 9 ∷ []; port = 50000 }

no_games : (k : Bytes) → lookup k (network.apps guest).registry.games ≡ none
unfolding occur addr_discrete app_step update_from_net_map extract_self_ip first_ipv4 say
    services_on fetch_self_ip new_discovery on_peers_changed new_registry get
no_games k = refl

hosted-Alone : Alone host hosted (network.apps guest)
hosted-Alone k y found =
    let nothing : none ≡ some y = sym (no_games k) ∙ found in absurd (cc nothing)

player : JoinsIt decoder hosted connection (codes "join")
unfolding read_join_packet
player = record {
  packet = record { host_counter = 3; player_name = codes "bob" };
  reads = refl;
  counter = refl;
}

game-Travels_example :
    Travels decoder network host guest hosted straight straight socket moment connection
      (codes "join")
game-Travels_example =
    game-Travels decoder machines network host guest hosted straight straight socket moment
      connection (codes "join") machines-Fresh network-Comes hosted-Hosted hosted-Alone player
