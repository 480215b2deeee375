-- ===== src/Peer.antt =====
-- peer/manager.go and peer/responder.go: games are asked for, and answered for, over UDP. A method
-- returns what it sends; a failed send is only logged.
pub mod Probing
pub mod Discover
pub mod Calls
pub mod Respond
pub mod Origin
use wc3ts.Prelude.{
  ℕ, ◌+◌, Bool, true, false, List, [], ◌∷◌, ◌++◌, Option, none, some, Bytes, codes, holds, take,
  ◌==◌, if◌then◌else◌,
}
use wc3ts.Net.{Addr, UdpAddr, addr_discrete, addr_from_slice, as_slice, is_loopback}
use wc3ts.W3gs.{GameVersion, GameInfo, SearchGame, Packet, game_info, Decoder}
use wc3ts.Game.{Game, Source, source_local, source_remote}
use wc3ts.Game.Registry.{Registry, Outcome, GameWalk, add, local_games}
use wc3ts.Tailscale.{Peer}

abbrev pub default_port : ℕ
default_port = 6112

-- The state of a `Manager`; the registry that it shares is passed beside it.
pub record Manager : Type 0 where
  pub version : GameVersion
  pub peers : List Peer

-- A packet for an address.
pub record Probe : Type 0 where
  pub to : UdpAddr
  pub packet : SearchGame

-- the zero value of the version in a new manager
abbrev zero_version : GameVersion
zero_version = record { product = []; version = 0 }

abbrev pub fresh_manager : Manager
fresh_manager = record { version = zero_version; peers = [] }

-- `NewManager`; its socket may not open
unfoldable pub new_manager : Bool → Option Manager
new_manager socket = if socket then some fresh_manager else none

unfoldable pub set_version : GameVersion → Manager → Manager
set_version v m = record m { version = v }

-- `net.ParseIP("127.0.0.1")`, which is the address in sixteen bytes
abbrev pub localhost : Bytes
localhost = 0 ∷ 0 ∷ 0 ∷ 0 ∷ 0 ∷ 0 ∷ 0 ∷ 0 ∷ 0 ∷ 0 ∷ 255 ∷ 255 ∷ 127 ∷ 0 ∷ 0 ∷ 1 ∷ []

abbrev search : GameVersion → SearchGame
search version = record { game_version = version; host_counter = 0 }

pub probe_local : GameVersion → Probe
probe_local version = record {
  to = record { ip = localhost; port = default_port };
  packet = search version;
}

pub probe_peer : Addr → GameVersion → Probe
unfolding as_slice
probe_peer ip version = record {
  to = record { ip = as_slice ip; port = default_port };
  packet = search version;
}

-- the loop over the peers
unfoldable pub probe_online : GameVersion → List Peer → List Probe
unfolding probe_peer
probe_online version [] = []
probe_online version (p ∷ ps) =
    if p.online then probe_peer p.ip version ∷ probe_online version ps else probe_online version ps

pub probe_all_peers : Manager → List Probe
unfolding probe_local probe_online
probe_all_peers m =
    if m.version.version == 0 then [] else probe_local m.version ∷ probe_online m.version m.peers

abbrev pub refresh : Manager → List Probe
unfolding probe_all_peers
refresh m = probe_all_peers m

unfoldable pub on_peers_changed : List Peer → Manager → Manager × List Probe
unfolding probe_all_peers
on_peers_changed peers m = let m' = record m { peers = peers } in (m', probe_all_peers m')

unfoldable pub name_of : List Peer → Addr → Bytes
unfolding addr_discrete
name_of [] ip = []
name_of (p ∷ ps) ip = if holds (addr_discrete p.ip ip) then p.name else name_of ps ip

unfoldable pub find_peer_name : Manager → Addr → Bytes
unfolding name_of
find_peer_name m ip = name_of m.peers ip

-- The game that `handleGameInfo` hands to the registry. The times are set there.
unfoldable pub discovered : Manager → GameInfo → Bytes → Addr → Game
unfolding find_peer_name
discovered m pkt raw_data peer_ip =
    if is_loopback peer_ip
    then record {
      info = pkt;
      raw_data = raw_data;
      source = source_local;
      peer_ip = peer_ip;
      peer_name = codes "local";
      first_seen = 0;
      last_seen = 0;
    }
    else record {
      info = pkt;
      raw_data = raw_data;
      source = source_remote;
      peer_ip = peer_ip;
      peer_name = find_peer_name m peer_ip;
      first_seen = 0;
      last_seen = 0;
    }

-- What the environment gives to one call of the registry's `Add`.
pub record Moment : Type 0 where
  pub walk : GameWalk
  pub now : ℕ
  pub later : ℕ

-- The registry, and the argument of the call of its `onChange`, if there was one.
abbrev pub Handled : Type 0
Handled = Registry × Option (List Game)

-- `addr` is `none` for an address that is no UDP address.
pub handle_game_info : Moment → Manager → GameInfo → Bytes → Option UdpAddr → Registry → Handled
unfolding discovered
handle_game_info t m pkt raw_data none r = (r, none)
handle_game_info t m pkt raw_data (some addr) r = elim (addr_from_slice addr.ip) [
  | none ↦ (r, none)
  | some peer_ip ↦
      let done = add t.walk t.now t.later (discovered m pkt raw_data peer_ip) r in
      (done.registry, done.notified)
]

abbrev pub udp_buffer_size : ℕ
udp_buffer_size = 512

-- A datagram that arrives, with the state of the manager at that time. `ReadFrom` drops what does
-- not fit the buffer.
pub record Arrival : Type 0 where
  pub moment : Moment
  pub manager : Manager
  pub datagram : Bytes
  pub from : Option UdpAddr

-- What one round of `receiveLoop` does with the decoded packet: only GameInfo packets count.
unfoldable pub dispatch : Option Packet → Arrival → Bytes → Registry → Handled
unfolding handle_game_info
dispatch (some (game_info info)) a raw_data r =
    handle_game_info a.moment a.manager info raw_data a.from r
dispatch _ a raw_data r = (r, none)

-- One round of `receiveLoop`.
unfoldable pub receive : Decoder → Arrival → Registry → Handled
unfolding dispatch
receive decode a r =
    let raw_data = take udp_buffer_size a.datagram in dispatch (decode raw_data) a raw_data r

-- `receiveLoop` over the datagrams that arrive before the connection fails.
pub receive_loop : Decoder → List Arrival → Registry → Registry × List (Option (List Game))
unfolding receive
receive_loop decode [] r = (r, [])
receive_loop decode (a ∷ rest) r =
    let (r', call) = receive decode a r in
    let (r'', calls) = receive_loop decode rest r' in (r'', call ∷ calls)

-- A reply of the responder.
pub record Reply : Type 0 where
  pub payload : Bytes
  pub to : UdpAddr

-- `NewResponder`: the address on which it listens, if its socket opens
unfoldable pub new_responder : Bool → Addr → Option UdpAddr
unfolding as_slice
new_responder socket local_ip =
    if socket then some (record { ip = as_slice local_ip; port = default_port }) else none

abbrev is_empty : Bytes → Bool
is_empty [] = true
is_empty (c ∷ s) = false

-- the loop of `onSearchGame`
pub replies : UdpAddr → List Game → List Reply
replies addr [] = []
replies addr (g ∷ gs) =
    if is_empty g.raw_data
    then replies addr gs
    else record { payload = g.raw_data; to = addr } ∷ replies addr gs

-- `Responder.onSearchGame`; the address is `none` if the event carries no UDP address
pub on_search_game : GameWalk → Option UdpAddr → Registry → List Reply
unfolding replies
on_search_game w none r = []
on_search_game w (some addr) r = replies addr (local_games w r)
