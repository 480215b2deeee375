-- ===== src/Peer/Calls.antt =====
-- peer/manager.go: the calls of `Add` that arriving packets make.
use wc3ts.Prelude.{◌≡◌, refl, ◌⊎◌, inl, inr, Option, none, some, Bytes, take, arith, Option-cases}
use wc3ts.Net.{Addr, UdpAddr, addr_from_slice}
use wc3ts.W3gs.{GameInfo, Packet, game_info, Decoder}
use wc3ts.Game.{Game}
use wc3ts.Game.Registry.{Registry, add}
use wc3ts.Peer.{Manager, Arrival, Handled, discovered, handle_game_info, dispatch, receive}

-- `g` comes from the sender of an arrival.
pub record Sent (a : Arrival) (g : Game) : Type 0 where
  pub addr : UdpAddr
  pub udp : a.from ≡ some addr
  pub sender : addr_from_slice addr.ip ≡ some g.peer_ip

-- What is done with a game.
abbrev pub adding : Arrival → Registry → Game → Handled
adding a r g =
    let done = add a.moment.walk a.moment.now a.moment.later g r in (done.registry, done.notified)

-- Nothing, or one call of `Add` with a game of the sender.
abbrev pub Calls : Arrival → Registry → Handled → Type 0
Calls a r h = (h ≡ (r, none)) ⊎ ((g : Game) × Sent a g × (h ≡ adding a r g))

peer_ip-discovered :
    (m : Manager) (info : GameInfo) (raw : Bytes) (ip : Addr)
    → (discovered m info raw ip).peer_ip ≡ ip
unfolding discovered
peer_ip-discovered m info raw ip = ground arith

module _ (a : Arrival) (r : Registry) (raw : Bytes) where
  handle-Calls :
      (info : GameInfo) (o : Option UdpAddr)
      → a.from ≡ o
      → Calls a r (handle_game_info a.moment a.manager info raw o r)
  unfolding handle_game_info
  handle-Calls info none e = inl refl
  handle-Calls info (some addr) e = elim (Option-cases (addr_from_slice addr.ip)) [
    | inl q ↦ inl (rw (q, handle_game_info) refl)
    | inr (ip, q) ↦ inr (
      discovered a.manager info raw ip,
      record { addr = addr; udp = e; sender = rw (peer_ip-discovered a.manager info raw ip) q },
      rw (q, handle_game_info) refl,
    )
  ]

  dispatch-Calls : (o : Option Packet) → Calls a r (dispatch o a raw r)
  unfolding dispatch
  dispatch-Calls (some (game_info info)) = handle-Calls info a.from refl
  dispatch-Calls _ = inl refl

pub receive-Calls : (decode : Decoder) (a : Arrival) (r : Registry) → Calls a r (receive decode a r)
unfolding receive
receive-Calls decode a r = dispatch-Calls a r (take 512 a.datagram) _
