-- ===== src/Proxy/Handler.antt =====
-- proxy/tcp.go: `handleConnection` on every branch.
use wc3ts.Prelude.{
  ◌≡◌, refl, subst, ◌⊎◌, inl, inr, true, false, List, [], ◌∷◌, ◌++◌, Option, none, some, Bytes,
  arith, if◌then◌else◌,
}
use wc3ts.W3gs.{Join, Decoder}
use wc3ts.Game.{Game, key}
use wc3ts.Game.Registry.{Registry, GameWalk, lookup, find_by_host_counter}
use wc3ts.Game.Registry.View.{IsValid}
use wc3ts.Game.Registry.Find.{Answers, Finds, find_lem}
use wc3ts.Relay.{relay}
use wc3ts.Proxy.{
  Connection, JoinResult, failed, joined, Effect, dial, write_remote, relayed, close_remote,
  close_client, read_join_packet, after_first, remote_addr, forward, to_game, route,
  handle_connection,
}

-- Which connections are open: the client's, both, or none.
pub data Conns : Type 0 where
  client_open both_open all_closed : Conns

-- An effect on the open connections; it is `none` if the effect needs a connection that is closed,
-- if it dials while a host is connected, or if it closes the client's connection before the host's.
pub effect : Effect → Conns → Option Conns
effect (dial to made) client_open = some (if made then both_open else client_open)
effect (write_remote raw) both_open = some both_open
effect (relayed end) both_open = some both_open
effect close_remote both_open = some client_open
effect close_client client_open = some all_closed
effect _ _ = none

pub effects : List Effect → Option Conns → Option Conns
effects [] o = o
effects (e ∷ es) none = none
effects (e ∷ es) (some o) = effects es (effect e o)

route-closes :
    (w : GameWalk) (r : Registry) (c : Connection) (res : JoinResult)
    → effects (route w r c res ++ close_client ∷ []) (some client_open) ≡ some all_closed
unfolding route to_game forward effects effect
route-closes w r c (failed e) = refl
route-closes w r c (joined j raw) = ground arith

-- Whatever the client, the host and the network do, the handler uses only connections that are open,
-- and when it returns it has closed the client's connection, and before it the host's if it made
-- one.
pub handle_connection-closes :
    (decode : Decoder) (w : GameWalk) (r : Registry) (c : Connection)
    → effects (handle_connection decode w r c) (some client_open) ≡ some all_closed
unfolding handle_connection
handle_connection-closes decode w r c = route-closes w r c (read_join_packet decode c)

-- The first packet of the client is a Join packet for `g`, a remote game of the registry.
pub record Routed (decode : Decoder) (r : Registry) (c : Connection) (raw : Bytes) (g : Game)
    : Type 0 where
  pub packet : Join
  pub reads : read_join_packet decode c ≡ joined packet raw
  pub bound : lookup (key g) r.games ≡ some g
  pub answers : Answers packet.host_counter g

-- What is done for a client that is routed to `g`.
unfoldable pub served : Connection → Bytes → Game → List Effect
served c raw g =
    if c.dials
    then (if c.writes
        then dial (remote_addr g) true
          ∷ write_remote raw
          ∷ relayed (relay c.turns (after_first c.client) c.remote)
          ∷ close_remote
          ∷ close_client
          ∷ []
        else dial (remote_addr g) true ∷ write_remote raw ∷ close_remote ∷ close_client ∷ [])
    else dial (remote_addr g) false ∷ close_client ∷ []

module _ (decode : Decoder) (w : GameWalk) (r : Registry) (c : Connection) where
  pub to_game-served :
      (raw : Bytes) (g : Game) → to_game c raw (some g) ++ close_client ∷ [] ≡ served c raw g
  unfolding to_game forward served
  to_game-served raw g = ground arith

  -- What the handler has done, `es`, is right.
  abbrev pub Handles : List Effect → Type 0
  Handles es =
      ((es ≡ close_client ∷ []) × ((raw : Bytes) (g : Game) → ¬ Routed decode r c raw g))
      ⊎ ((raw : Bytes) × (g : Game) × Routed decode r c raw g × (es ≡ served c raw g))

  Routed-packet :
      (j : Join) (raw raw' : Bytes) (g : Game)
      → read_join_packet decode c ≡ joined j raw
      → Routed decode r c raw' g
      → Answers j.host_counter g
  Routed-packet j raw raw' g e k =
      let same : k.packet ≡ j = cc (e, k.reads) in
      subst (λ (x : Join). Answers x.host_counter g) same k.answers

  to_game-Handles :
      (j : Join) (raw : Bytes) (o : Option Game)
      → read_join_packet decode c ≡ joined j raw
      → Finds r j.host_counter o
      → Handles (to_game c raw o ++ close_client ∷ [])
  unfolding to_game
  to_game-Handles j raw none e f =
      inl (refl, λ raw' g k. f (key g) g k.bound (Routed-packet j raw raw' g e k))
  to_game-Handles j raw (some g) e f =
      inr
        (raw, g, record { packet = j; reads = e; bound = f.0; answers = f.1 }, to_game-served raw g)

  route-Handles :
      (res : JoinResult)
      → read_join_packet decode c ≡ res
      → IsValid r
      → Handles (route w r c res ++ close_client ∷ [])
  unfolding route
  route-Handles (failed x) e v = inl (refl, λ raw g k. cc (e, k.reads))
  route-Handles (joined j raw) e v =
      to_game-Handles j raw (find_by_host_counter w j.host_counter r) e
        (find_lem w j.host_counter r v)

  -- In a valid registry: either the first packet of the client is no Join packet to which a remote
  -- game answers, and then the client's connection is closed and nothing else is done; or it is the
  -- Join packet for a remote game of the registry with its host counter, and then the host of that
  -- game is dialled, at its address and port, and no other, and the packet is forwarded as it came,
  -- before the relay begins.
  pub handle_connection_lem : IsValid r → Handles (handle_connection decode w r c)
  unfolding handle_connection
  handle_connection_lem v = route-Handles (read_join_packet decode c) refl v
