-- ===== src/Network.antt =====
-- cmd/wc3ts/run.go on several machines, each with its address on the tailnet. A datagram may be lost,
-- come late, or come more than once, so that what was sent stays in `sent`; and a search may come
-- from anyone at any time. The source address of a datagram is not forged.
pub mod Letters
pub mod Genuine
pub mod Started
pub mod Found
pub mod Alone
pub mod Journey
use wc3ts.Prelude.{
  ℕ, ◌≡◌, Bool, true, false, List, [], ◌∷◌, ◌++◌, Option, none, some, Bytes, Mem, holds,
  if◌then◌else◌,
}
use wc3ts.Net.{Addr, UdpAddr, addr_discrete, addr_from_slice, as_slice, is_loopback}
use wc3ts.W3gs.{Decoder}
use wc3ts.Game.Key.{IsV4}
use wc3ts.Peer.{Moment, Reply, default_port}
use wc3ts.App
use wc3ts.App.{App, AppEvent, Output, app_step}

-- A reply, and the machine whose program has sent it.
pub record Letter : Type 0 where
  pub machine : Addr
  pub reply : Reply

-- A datagram, and the machine on which something other than the program has sent it: a game, say.
pub record Saying : Type 0 where
  pub machine : Addr
  pub datagram : Bytes

pub record Network : Type 0 where
  pub apps : Addr → App
  pub sent : List Letter
  pub said : List Saying

pub put_app : Addr → App → (Addr → App) → Addr → App
put_app i a apps j = if holds (addr_discrete i j) then a else apps j

pub letters : Addr → List Output → List Letter
letters i [] = []
letters i (App.reply r ∷ rest) = record { machine = i; reply = r } ∷ letters i rest
letters i (_ ∷ rest) = letters i rest

-- A datagram with a loopback address comes from the machine itself.
abbrev pub origin : Addr → Addr → Addr
origin i ip = if is_loopback ip then i else ip

module _ (decode : Decoder) where
  -- An event on one machine.
  unfoldable pub occur : Addr → AppEvent → Network → Network
  unfolding put_app letters
  occur i e n =
      let (a, outputs) = app_step decode e (n.apps i) in
      record n { apps = put_app i a n.apps; sent = letters i outputs ++ n.sent }

  -- Something at the address `ip` sends a datagram to the program on a machine.
  unfoldable pub say : Addr → Moment → Bytes → UdpAddr → Addr → Network → Network
  say i t d from ip n =
      let heard = occur i (App.datagram t d (some from)) n in
      record heard { said = record { machine = origin i ip; datagram = d } ∷ n.said }

  -- A reply reaches a program.
  unfoldable pub deliver : Addr → Moment → Letter → Network → Network
  deliver i t l = occur i (
      App.datagram t l.reply.payload
        (some (record { ip = as_slice l.machine; port = default_port })))

-- The events that are no datagrams.
pub data Quiet : AppEvent → Type 0 where
  of_net_map : (nm : _) → Quiet (App.net_map nm)
  of_probe_tick : Quiet App.probe_tick
  of_broadcast_tick : (w : _) → Quiet (App.broadcast_tick w)
  of_connection : (w : _) (c : _) → Quiet (App.connection w c)
  of_search_query : (w : _) (from : _) → Quiet (App.search_query w from)
  of_version : (v : ℕ) → Quiet (App.version_chosen v)
  of_refresh : Quiet App.refresh_chosen

-- One step of the network.
pub data Move (decode : Decoder) (n : Network) : Network → Type 0 where
  acts : (i : Addr) (e : AppEvent) → Quiet e → Move decode n (occur decode i e n)
  says :
      (i : Addr) (t : Moment) (d : Bytes) (from : UdpAddr) (ip : Addr)
      → addr_from_slice from.ip ≡ some ip
      → Move decode n (say decode i t d from ip n)
  delivers :
      (i : Addr) (t : Moment) (l : Letter)
      → Mem l n.sent
      → IsV4 l.machine
      → is_loopback l.machine ≡ false
      → Move decode n (deliver decode i t l n)

-- The networks that some steps lead to.
pub data Comes (decode : Decoder) (n : Network) : Network → Type 0 where
  at_first : Comes decode n n
  and_then : (m k : Network) → Comes decode n m → Move decode m k → Comes decode n k
