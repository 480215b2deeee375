-- ===== src/Network/Journey.antt =====
-- cmd/wc3ts/run.go on several machines: a game of one machine is found, shown and joined on another.
use wc3ts.Prelude.{ℕ, ◌≡◌, ◌≤◌, length, refl, sym, ap, ◌∙◌, subst, Bytes, Mem, some}
use wc3ts.Prelude.Walk.{Walk}
use wc3ts.Net.{Addr, UdpAddr, addr_text, join_host_port}
use wc3ts.Text.{decimal}
use wc3ts.W3gs.{Join, Decoder}
use wc3ts.Game.{Game, key, is_remote}
use wc3ts.Game.Registry.{GameWalk}
use wc3ts.Game.Registry.Values.{mem-values}
use mathlib.Core.List.Perm
use wc3ts.Lan.{with_port, broadcast_games}
use wc3ts.Lan.Announced.{mem-broadcast}
use wc3ts.Peer.{Moment, probe_peer, probe_all_peers}
use wc3ts.Proxy.{Connection, joined, read_join_packet, handle_connection, remote_addr}
use wc3ts.Proxy.Handler.{served}
use wc3ts.Proxy.Arrival.{only_is_served}
use wc3ts.App.{App}
use wc3ts.App.Consistent.{Consistent}
use wc3ts.Network.{Network, acts, delivers, of_search_query, Comes, and_then}
use wc3ts.Network.Started.{Fresh, Comes-Announced}
use wc3ts.Network.Alone.{Alone, key-remote, answered-Alone}
use wc3ts.Network.Found.{Hosted, Received, letter, searched, answered, asks, answers, received}

-- The game on the other machine, for a player there whose Join packet is `raw`.
pub record Playable (decode : Decoder) (host : Addr) (g : Game) (a : App) (x : Received host g a)
    (w : GameWalk) (c : Connection) (raw : Bytes) : Type 0 where
  pub shown :
      (v : Walk (Bytes × ℕ))
      → Mem (with_port a.broadcaster.proxy_port g.raw_data) (broadcast_games v a.broadcaster).1
  pub joins : handle_connection decode w a.registry c ≡ served c raw x.game
  pub dialled_at : remote_addr x.game ≡ join_host_port (addr_text host) (decimal g.info.game_port)

-- A player's first packet is a Join packet for the game.
pub record JoinsIt (decode : Decoder) (g : Game) (c : Connection) (raw : Bytes) : Type 0 where
  pub packet : Join
  pub reads : read_join_packet decode c ≡ joined packet raw
  pub counter : packet.host_counter ≡ g.info.host_counter

Received-Playable :
    (decode : Decoder) (host : Addr) (g : Game) (a : App) (x : Received host g a) (w : GameWalk)
    (c : Connection) (raw : Bytes)
    → Consistent a
    → 4 ≤ length g.raw_data
    → Alone host g a
    → JoinsIt decode g c raw
    → Playable decode host g a x w c raw
unfolding remote_addr
Received-Playable decode host g a x w c raw k long alone join = record {
  shown = λ v.
      subst (λ s. Mem (with_port a.broadcaster.proxy_port s) (broadcast_games v a.broadcaster).1)
        x.same_data
        (mem-broadcast v a.broadcaster x.game
          ((Perm.mem_iff k.same_games).1 ((mem-values a.registry x.game k.valid).1 x.known))
          (ap is_remote x.remote) (rw x.same_data long));
  joins =
      only_is_served decode w a.registry c join.packet raw (key x.game) x.game k.valid join.reads
        x.known
        (record {
          remote = x.remote;
          counter = ap (λ i. i.host_counter) x.same_info ∙ sym join.counter;
        })
        (λ j y found answers.
          alone j y found
            (record { remote = answers.remote; counter = answers.counter ∙ join.counter })
          ∙ sym (key-remote host g x.game x.remote x.hosted x.same_info));
  dialled_at = rw (x.hosted, x.same_info) refl;
}

-- What has become of a game of machine `h` on machine `i`, once a search is answered.
pub record Travels (decode : Decoder) (n : Network) (h i : Addr) (g : Game) (w v : GameWalk)
    (from : UdpAddr) (t : Moment) (c : Connection) (raw : Bytes) : Type 0 where
  pub asked :
      Mem (probe_peer h (n.apps i).peer_manager.version) (probe_all_peers (n.apps i).peer_manager)
  pub told : Mem (letter h g from) (searched decode w from h n).sent
  pub arrives : Received h g ((answered decode w from t h i g n).apps i)
  pub playable : Playable decode h g ((answered decode w from t h i g n).apps i) arrives v c raw

-- On machines that have started the program, whatever has happened: if a machine has a local game
-- and a responder, and is an online peer of another machine, which has no other remote game with the
-- game's host counter, then that machine asks it when it probes; a search is answered with the
-- game; and once the answer arrives, that machine has the game as a remote game of the host, with
-- the same bytes and fields, each of its broadcasts has the announcement of the game, with the port
-- of the proxy, and a player who joins the game there is served with it: the host is dialled, at
-- the port of the game.
pub game-Travels :
    (decode : Decoder) (first n : Network) (h i : Addr) (g : Game) (w v : GameWalk) (from : UdpAddr)
    (t : Moment) (c : Connection) (raw : Bytes)
    → Fresh first
    → Comes decode first n
    → Hosted n h i g
    → Alone h g (n.apps i)
    → JoinsIt decode g c raw
    → Travels decode n h i g w v from t c raw
game-Travels decode first n h i g w v from t c raw fresh comes k alone join =
    let before = Comes-Announced decode first n fresh comes in
    let told = answers decode n h i g k w from (before.consistent h).valid in
    let searching : Comes decode first (searched decode w from h n) =
      and_then n _ comes (acts h _ (of_search_query w (some from))) in
    let arriving : Comes decode first (answered decode w from t h i g n) =
      and_then _ _ searching (delivers i t (letter h g from) told k.ipv4 k.far) in
    let after = (Comes-Announced decode first _ fresh arriving).consistent i in
    let x = received decode n h i g k w from t before in
    record {
      asked = asks decode n h i g k;
      told = told;
      arrives = x;
      playable =
          Received-Playable decode h g _ x v c raw after k.long
            (answered-Alone decode n h i g w from t k before after.valid alone) join;
    }
