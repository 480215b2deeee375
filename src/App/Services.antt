-- ===== src/App/Services.antt =====
-- cmd/wc3ts/run.go: the services that are started, and the loops that they run until the context is
-- cancelled: `Run` of peer/manager.go, peer/responder.go and proxy/tcp.go.
use wc3ts.Prelude.{
  Bool, true, List, [], ◌∷◌, map, Option, none, some, Bytes, codes, ◌≡◌, ◌↔◌, refl, ap,
  if◌then◌else◌,
}
use wc3ts.Prelude.Wake.{
  Wake, woken, cancelled, until_cancelled, before_cancel, IsCancelled, until_cancelled_lem,
}
use wc3ts.Net.{UdpAddr}
use wc3ts.W3gs.{Decoder}
use wc3ts.Game.Registry.{Registry, GameWalk}
use wc3ts.Peer.{Manager, Probe, probe_all_peers, Reply, on_search_game}
use wc3ts.Proxy.{
  Accept, accepted, accept_error, listener_closed, accept_loop, Effect, handle_connection,
}
use wc3ts.App.{App}

pub data Service : Type 0 where
  discovery_service peer_manager_service broadcaster_service tcp_proxy_service : Service
  responder_service : Service

-- `startServices`: the goroutines that are started
unfoldable pub start_services : App → List Service
start_services a =
    discovery_service
    ∷ peer_manager_service
    ∷ broadcaster_service
    ∷ tcp_proxy_service
    ∷ (elim a.responder [ none ↦ [] | some addr ↦ responder_service ∷ [] ])

abbrev error_message : Service → Bytes
error_message discovery_service = codes "tailscale discovery error"
error_message peer_manager_service = codes "peer manager error"
error_message broadcaster_service = codes "broadcaster error"
error_message tcp_proxy_service = codes "TCP proxy error"
error_message responder_service = codes "responder error"

-- What the goroutine of a service logs when its `Run` returns, with the error if there is one, and
-- whether the context is cancelled.
unfoldable pub service_log : Service → Option Bytes → Bool → Option (Bytes × Bytes)
service_log s none is_cancelled = none
service_log s (some e) is_cancelled = if is_cancelled then none else some (error_message s, e)

-- `Manager.Run`: the manager as it is at each tick; what is sent, and whether `Run` has returned,
-- which closes the socket before
pub manager_run : List (Wake Manager) → List (List Probe) × Bool
manager_run wakes = until_cancelled probe_all_peers wakes

-- A search, with the registry as it is then.
pub record Query : Type 0 where
  pub walk : GameWalk
  pub from : Option UdpAddr
  pub registry : Registry

-- `Responder.Run`
pub responder_run : List (Wake Query) → List (List Reply) × Bool
responder_run wakes = until_cancelled (λ q. on_search_game q.walk q.from q.registry) wakes

-- What the listener returns: when the context is cancelled, it is closed.
pub listener_accepts : List (Wake Accept) → List Accept
listener_accepts [] = []
listener_accepts (cancelled ∷ rest) = listener_closed ∷ []
listener_accepts (woken a ∷ rest) = a ∷ listener_accepts rest

-- `TCPProxy.Run`, with `acceptLoop` in the background
pub tcp_proxy_run : Decoder → List (Wake Accept) → List (List Effect) × Bool
unfolding listener_accepts
tcp_proxy_run decode wakes =
    (accept_loop decode (listener_accepts wakes), (until_cancelled (λ a. a) wakes).1)

-- A closed listener ends the loop, as if nothing more came.
accept_loop-closed :
    (decode : Decoder) (l : List (Wake Accept))
    → accept_loop decode (listener_accepts l) ≡ accept_loop decode (before_cancel l)
unfolding listener_accepts before_cancel accept_loop
accept_loop-closed decode [] = refl
accept_loop-closed decode (cancelled ∷ rest) = refl
accept_loop-closed decode (woken listener_closed ∷ rest) = refl
accept_loop-closed decode (woken accept_error ∷ rest) = accept_loop-closed decode rest
accept_loop-closed decode (woken (accepted w r c) ∷ rest) =
    ap (◌∷◌ (handle_connection decode w r c)) (accept_loop-closed decode rest)

-- The manager, the responder and the proxy return exactly when the context is cancelled; until then
-- the manager has probed at each tick, the responder has answered each search, and the proxy has
-- done what its accept loop does, and nothing after.
pub services-return :
    (decode : Decoder) (ticks : List (Wake Manager)) (queries : List (Wake Query))
    (conns : List (Wake Accept))
    → (((manager_run ticks).0 ≡ map probe_all_peers (before_cancel ticks))
        × ((manager_run ticks).1 ≡ true ↔ IsCancelled ticks))
      × (((responder_run queries).0
            ≡ map (λ q. on_search_game q.walk q.from q.registry) (before_cancel queries))
          × ((responder_run queries).1 ≡ true ↔ IsCancelled queries))
      × (((tcp_proxy_run decode conns).0 ≡ accept_loop decode (before_cancel conns))
          × ((tcp_proxy_run decode conns).1 ≡ true ↔ IsCancelled conns))
unfolding manager_run responder_run tcp_proxy_run
services-return decode ticks queries conns = (
  until_cancelled_lem _ ticks,
  until_cancelled_lem _ queries,
  (accept_loop-closed decode conns, (until_cancelled_lem (λ a. a) conns).1),
)
