-- ===== src/Tests/Peers.antt =====
-- Discovery of peers and games, and the answers to searches.
use wc3ts.Prelude.{
  ◌≡◌, ◌≢◌, ◌↔◌, refl, true, List, [], ◌∷◌, Option, none, some, Bytes, codes, Mem, bytes_discrete,
  ℕ_discrete,
}
use wc3ts.Prelude.Assoc.{get}
use wc3ts.Prelude.Walk.{straight}
use wc3ts.Net.{UdpAddr, addr_from_slice, addr_text, is_loopback}
use wc3ts.Text.{decimal}
use wc3ts.W3gs.{game_info, Decoder}
use wc3ts.Game.{Game, key}
use wc3ts.Game.Registry.{lookup}
use wc3ts.Tailscale.{Peer, NodeView, NetworkMap, extract_peers}
use wc3ts.Tailscale.Extract.{Admits, mem-extract_peers_iff}
use wc3ts.Peer.{Manager, Moment, Arrival, Reply, discovered, receive, on_search_game}
use wc3ts.Peer.Discover.{Recorded, receive_lem, receive_forgets_first_seen}
use wc3ts.Peer.Respond.{IsOffered, reply_to, on_search_game_lem}
use wc3ts.Tests.Data.{registry, registry-IsValid, remote_game, packet, lobby, tft, peer_addr}

abbrev node : NodeView
node = record {
  valid = true;
  online = some true;
  tags = [];
  hostinfo_os = some (codes "Windows");
  addresses = peer_addr ∷ [];
  computed_name = codes "box";
}

abbrev phone : NodeView
phone = record node { hostinfo_os = some (codes "iOS") }

abbrev box : Peer
box = record { name = codes "box"; ip = peer_addr; online = true; os = codes "Windows" }

mem-extract_peers_iff_example :
    Mem box (extract_peers (phone ∷ node ∷ []))
    ↔ ∥ ((n : NodeView) × Mem n (phone ∷ node ∷ []) × Admits n box) ∥₁
mem-extract_peers_iff_example = mem-extract_peers_iff (phone ∷ node ∷ []) box

abbrev notifications : List (Option NetworkMap)
notifications = none ∷ some (record { self_node = node; peers = phone ∷ node ∷ [] }) ∷ []

abbrev manager : Manager
manager = record { version = tft; peers = box ∷ [] }

abbrev moment : Moment
moment = record { walk = straight; now = 30; later = 31 }

abbrev sender : UdpAddr
sender = record { ip = 100 ∷ 64 ∷ 0 ∷ 7 ∷ []; port = 6112 }

abbrev arrival : Arrival
arrival = record { moment = moment; manager = manager; datagram = packet; from = some sender }

-- A decoder that knows one kind of packet.
abbrev decoder : Decoder
decoder s = some (game_info (lobby 3))

receive_lem_example :
    (g : Game) × (lookup (key g) (receive decoder arrival registry).0.games ≡ some g)
    × Recorded arrival (lobby 3) peer_addr g
    × ((j : Bytes)
        → j ≢ key g
        → lookup j (receive decoder arrival registry).0.games ≡ lookup j registry.games)
unfolding addr_from_slice
receive_lem_example = receive_lem decoder arrival registry (lobby 3) sender peer_addr refl refl refl

receive_forgets_first_seen_example :
    (g : Game) × (lookup
        (key (discovered manager (lobby 3) packet peer_addr))
        (receive decoder arrival registry).0.games
      ≡ some g)
    × (g.first_seen ≡ 0)
unfolding addr_from_slice discovered is_loopback key addr_text decimal get bytes_discrete ℕ_discrete
receive_forgets_first_seen_example =
    receive_forgets_first_seen decoder arrival registry (lobby 3) sender peer_addr refl refl refl
      remote_game refl

on_search_game_lem_example :
    (on_search_game straight none registry ≡ [])
    × ((addr : UdpAddr) (p : Reply)
        → Mem p (on_search_game straight (some addr) registry)
          ↔ ∥ ((g : Game) × IsOffered registry g × (p ≡ reply_to addr g)) ∥₁)
on_search_game_lem_example = on_search_game_lem straight registry registry-IsValid
