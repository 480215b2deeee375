-- ===== src/Proxy.antt =====
-- proxy/tcp.go: a player's connection is taken to the host of the game that its first packet names.
-- A value of `Connection` is what the two peers and the network do; a handler returns what it does
-- to the connections, in order.
pub mod Handler
pub mod Arrival
pub mod Segments
use wc3ts.Prelude.{
  ℕ, Bool, true, false, List, [], ◌∷◌, ◌++◌, Option, none, some, Bytes, take, drop, if◌then◌else◌,
}
use wc3ts.Text.{decimal}
use wc3ts.Net.{addr_text, join_host_port}
use wc3ts.W3gs.{Join, Packet, join, Decoder}
use wc3ts.Game.{Game}
use wc3ts.Game.Registry.{Registry, GameWalk, find_by_host_counter}
use wc3ts.Relay.{Chunk, arrived, eof, broken, Relay, Turn, relay}

-- The address that a listener has: a TCP address with its port, or another kind of address.
pub data ListenAddr : Type 0 where
  tcp_addr : ℕ → ListenAddr
  other_addr : ListenAddr

-- The result of `NewTCPProxy`; a proxy is known by its port.
pub data NewProxy : Type 0 where
  listen_error unexpected_listener_type : NewProxy
  tcp_proxy : ℕ → NewProxy

-- `NewTCPProxy`, with whether the listener is closed again; `none` if it could not be opened
unfoldable pub new_tcp_proxy : Option ListenAddr → NewProxy × Bool
new_tcp_proxy none = (listen_error, false)
new_tcp_proxy (some other_addr) = (unexpected_listener_type, true)
new_tcp_proxy (some (tcp_addr port)) = (tcp_proxy port, false)

abbrev pub max_join_packet_size : ℕ
max_join_packet_size = 512

-- `set_deadline` and `clear_deadline` tell whether `SetReadDeadline` works, `in_time` whether the
-- first chunk arrives before the deadline. `turns` is the interleaving of the relay.
pub record Connection : Type 0 where
  pub set_deadline : Bool
  pub in_time : Bool
  pub clear_deadline : Bool
  pub client : List Chunk
  pub remote : List Chunk
  pub dials : Bool
  pub writes : Bool
  pub turns : List Turn

pub data JoinError : Type 0 where
  set_deadline_error read_error clear_deadline_error deserialize_error : JoinError
  unexpected_packet_type : JoinError

-- The result of `readJoinPacket`: an error, or the packet with its bytes.
pub data JoinResult : Type 0 where
  failed : JoinError → JoinResult
  joined : Join → Bytes → JoinResult

pub parse_join : Option Packet → Bytes → JoinResult
parse_join none raw = failed deserialize_error
parse_join (some (join j)) raw = joined j raw
parse_join (some _) raw = failed unexpected_packet_type

-- A read returns what fits the buffer.
pub read_first : Decoder → Bool → List Chunk → JoinResult
unfolding parse_join
read_first decode clears (arrived s ∷ rest) =
    let raw = take max_join_packet_size s in
    if clears then parse_join (decode raw) raw else failed clear_deadline_error
read_first decode clears _ = failed read_error

unfoldable pub read_join_packet : Decoder → Connection → JoinResult
unfolding read_first
read_join_packet decode c =
    let read = read_first decode c.clear_deadline c.client in
    if c.set_deadline
    then (if c.in_time then read else failed read_error)
    else failed set_deadline_error

-- What the client's stream holds after the first read.
pub after_first : List Chunk → List Chunk
after_first [] = []
after_first (arrived s ∷ rest) = arrived (drop max_join_packet_size s) ∷ rest
after_first (c ∷ rest) = rest

pub data Effect : Type 0 where
  -- a connection to the address is tried, and whether it is made
  dial : Bytes → Bool → Effect
  -- bytes are handed to the connection to the host
  write_remote : Bytes → Effect
  -- the relay runs, and how it ends
  relayed : Relay → Effect
  close_remote close_client : Effect

unfoldable pub remote_addr : Game → Bytes
remote_addr g = join_host_port (addr_text g.peer_ip) (decimal g.info.game_port)

-- From the connection to the host on.
pub forward : Connection → Bytes → List Effect
unfolding after_first
forward c raw =
    let relaying = relayed (relay c.turns (after_first c.client) c.remote) in
    write_remote raw ∷ (if c.writes then relaying ∷ close_remote ∷ [] else close_remote ∷ [])

pub to_game : Connection → Bytes → Option Game → List Effect
unfolding remote_addr forward
to_game c raw none = []
to_game c raw (some g) = dial (remote_addr g) c.dials ∷ (if c.dials then forward c raw else [])

pub route : GameWalk → Registry → Connection → JoinResult → List Effect
unfolding to_game
route w r c (failed e) = []
route w r c (joined j raw) = to_game c raw (find_by_host_counter w j.host_counter r)

-- `handleConnection`; the client's connection is closed at last, whatever happens
pub handle_connection : Decoder → GameWalk → Registry → Connection → List Effect
unfolding read_join_packet route
handle_connection decode w r c = route w r c (read_join_packet decode c) ++ close_client ∷ []

-- What `Accept` returns; a connection comes with the registry as it is then.
pub data Accept : Type 0 where
  accepted : GameWalk → Registry → Connection → Accept
  accept_error listener_closed : Accept

-- `acceptLoop`: what is done for each connection, until the listener is closed
unfoldable pub accept_loop : Decoder → List Accept → List (List Effect)
accept_loop decode [] = []
accept_loop decode (listener_closed ∷ rest) = []
accept_loop decode (accept_error ∷ rest) = accept_loop decode rest
accept_loop decode (accepted w r c ∷ rest) =
    handle_connection decode w r c ∷ accept_loop decode rest
