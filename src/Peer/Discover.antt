-- ===== src/Peer/Discover.antt =====
-- peer/manager.go: what arriving packets do to the registry.
use wc3ts.Prelude.{
  ◌≡◌, ◌≢◌, refl, sym, ap, ◌∙◌, true, false, List, [], ◌∷◌, Option, none, some, arith, Bytes,
  bytes_discrete, codes, ite, take,
}
use mathlib.Core.Logic.{if_pos, if_neg}
use wc3ts.Net.{Addr, UdpAddr, addr_from_slice, is_loopback}
use wc3ts.W3gs.{GameInfo, Packet, game_info, Decoder}
use wc3ts.Game.{Game, source_local, source_remote, key}
use wc3ts.Game.Registry.{Registry, lookup, exists, add, stored}
use wc3ts.Game.Registry.View.{IsValid, add-IsValid, lookup-add, key-stored}
use wc3ts.Peer.{
  Arrival, discovered, handle_game_info, dispatch, receive, receive_loop, find_peer_name,
}

-- The game that an arrival announces, if it announces one: its packet decodes to a GameInfo, and
-- it comes from an IP address.
abbrev pub from_sender : Arrival → Bytes → GameInfo → Option UdpAddr → Option Game
from_sender a raw info none = none
from_sender a raw info (some addr) = elim (addr_from_slice addr.ip) [
  | none ↦ none
  | some ip ↦ some (discovered a.manager info raw ip)
]

abbrev pub announced_by : Arrival → Bytes → Option Packet → Option Game
announced_by a raw (some (game_info info)) = from_sender a raw info a.from
announced_by a raw _ = none

-- What is received is cut to the buffer.
abbrev pub announced : Decoder → Arrival → Option Game
announced decode a = announced_by a (take 512 a.datagram) (decode (take 512 a.datagram))

-- The registry after an arrival that announces `o`.
abbrev pub registers : Arrival → Option Game → Registry → Registry
registers a none r = r
registers a (some g) r = (add a.moment.walk a.moment.now a.moment.later g r).registry

module _ (a : Arrival) (raw : Bytes) (r : Registry) where
  handle-registers :
      (info : GameInfo) (o : Option UdpAddr)
      → (handle_game_info a.moment a.manager info raw o r).0
        ≡ registers a (from_sender a raw info o) r
  unfolding handle_game_info
  handle-registers info none = refl
  handle-registers info (some addr) = ground arith

  dispatch-registers :
      (o : Option Packet) → (dispatch o a raw r).0 ≡ registers a (announced_by a raw o) r
  unfolding dispatch
  dispatch-registers (some (game_info info)) = handle-registers info a.from
  dispatch-registers _ = refl

pub receive-registers :
    (decode : Decoder) (a : Arrival) (r : Registry)
    → (receive decode a r).0 ≡ registers a (announced decode a) r
unfolding receive
receive-registers decode a r = dispatch-registers a (take 512 a.datagram) r _

registers-IsValid :
    (a : Arrival) (o : Option Game) (r : Registry) → IsValid r → IsValid (registers a o r)
registers-IsValid a none r v = v
registers-IsValid a (some g) r v = add-IsValid a.moment.walk a.moment.now a.moment.later g r v

pub receive-IsValid :
    (decode : Decoder) (a : Arrival) (r : Registry) → IsValid r → IsValid (receive decode a r).0
receive-IsValid decode a r v =
    rw (receive-registers decode a r) (registers-IsValid a (announced decode a) r v)

-- Whatever datagrams arrive, a valid registry stays valid.
pub receive_loop-IsValid :
    (decode : Decoder) (as_arrived : List Arrival) (r : Registry)
    → IsValid r
    → IsValid (receive_loop decode as_arrived r).0
unfolding receive_loop
receive_loop-IsValid decode [] r v = v
receive_loop-IsValid decode (a ∷ rest) r v =
    receive_loop-IsValid decode rest (receive decode a r).0 (receive-IsValid decode a r v)

-- What the registry holds of a game that was announced.
pub record Recorded (a : Arrival) (info : GameInfo) (ip : Addr) (g : Game) : Type 0 where
  pub same_info : g.info ≡ info
  pub same_data : g.raw_data ≡ take 512 a.datagram
  pub same_ip : g.peer_ip ≡ ip
  pub seen : g.last_seen ≡ a.moment.later
  pub here : is_loopback ip ≡ true → (g.source ≡ source_local) × (g.peer_name ≡ codes "local")
  pub there :
      is_loopback ip ≡ false
      → (g.source ≡ source_remote) × (g.peer_name ≡ find_peer_name a.manager ip)

module _ (decode : Decoder) (a : Arrival) (r : Registry) (info : GameInfo) (addr : UdpAddr)
    (ip : Addr) (decodes : decode (take 512 a.datagram) ≡ some (game_info info))
    (udp : a.from ≡ some addr) (sender : addr_from_slice addr.ip ≡ some ip) where
  -- The game that is handed to `Add`, and the game that `Add` stores.
  abbrev given : Game
  given = discovered a.manager info (take 512 a.datagram) ip

  abbrev kept : Game
  kept = stored (exists (lookup (key given) r.games)) a.moment.now a.moment.later given

  announced-given : announced decode a ≡ some given
  announced-given =
      ap (announced_by a (take 512 a.datagram)) decodes
      ∙ ap (from_sender a (take 512 a.datagram) info) udp
      ∙ ground arith

  kept-Recorded : Recorded a info ip kept
  unfolding discovered stored
  kept-Recorded = record {
    same_info = ground arith;
    same_data = ground arith;
    same_ip = ground arith;
    seen = ground arith;
    here = λ h. ground arith;
    there = λ h. ground arith;
  }

  lookup-receive :
      (j : Bytes)
      → lookup j (receive decode a r).0.games
        ≡ ite (bytes_discrete (key given) j) (some kept) (lookup j r.games)
  lookup-receive j =
      ap (λ x. lookup j x.games)
        (receive-registers decode a r ∙ ap (λ o. registers a o r) announced-given)
      ∙ lookup-add a.moment.walk a.moment.now a.moment.later given r j

  key-kept : key kept ≡ key given
  key-kept = key-stored (exists (lookup (key given) r.games)) a.moment.now a.moment.later given

  -- A GameInfo packet from an IP address is recorded under the key of its game: the decoded
  -- information, the bytes received, the sender's address and the time; as a local game if the
  -- address is a loopback address, and else as a remote game with the name of the peer that has
  -- the address. Every other key keeps its game.
  pub receive_lem :
      (g : Game) × (lookup (key g) (receive decode a r).0.games ≡ some g)
      × Recorded a info ip g
      × ((j : Bytes) → j ≢ key g → lookup j (receive decode a r).0.games ≡ lookup j r.games)
  receive_lem = (
    kept,
    lookup-receive (key kept)
        ∙ if_pos (bytes_discrete (key given) (key kept)) (sym key-kept) (some kept)
            (lookup (key kept) r.games),
    kept-Recorded,
    λ j ne.
        lookup-receive j
        ∙ if_neg (bytes_discrete (key given) j) (λ e. ne (sym e ∙ sym key-kept)) (some kept)
            (lookup j r.games),
  )

  -- If a GameInfo packet arrives from an IP address, and a game with the key of its game was known
  -- before, then the first-seen time is lost: it is the zero time after the packet, whatever it was.
  pub receive_forgets_first_seen :
      (old : Game)
      → lookup (key (discovered a.manager info (take 512 a.datagram) ip)) r.games ≡ some old
      → (g : Game) × (lookup
            (key (discovered a.manager info (take 512 a.datagram) ip))
            (receive decode a r).0.games
          ≡ some g)
        × (g.first_seen ≡ 0)
  unfolding stored discovered
  receive_forgets_first_seen old h = (
    kept,
    lookup-receive (key given)
        ∙ if_pos (bytes_discrete (key given) (key given)) refl (some kept)
            (lookup (key given) r.games),
    ground arith,
  )
