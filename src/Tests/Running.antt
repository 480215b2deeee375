-- ===== src/Tests/Running.antt =====
-- The program as a whole.
use wc3ts.Prelude.{
  ◌≡◌, refl, sym, subst, All, ◌==◌, if◌then◌else◌, true, false, List, [], ◌∷◌, none, some, codes,
  Mem, bytes_discrete, ℕ_discrete,
}
use mathlib.Core.List.{mem-cons_self}
use wc3ts.Prelude.Assoc.{get, put}
use wc3ts.Prelude.Walk.{straight}
use wc3ts.Net.{v4, UdpAddr, addr_from_slice, is_loopback, addr_text}
use wc3ts.Text.{decimal}
use wc3ts.W3gs.{game_info, join, Decoder}
use wc3ts.Config.{default_config}
use wc3ts.Game.{Game, key}
use wc3ts.Game.Registry.{lookup, new_registry, add, stored, snapshot}
use wc3ts.Game.Registry.Find.{Answers}
use wc3ts.Proxy.{handle_connection, read_join_packet, tcp_addr, new_tcp_proxy}
use wc3ts.Proxy.Handler.{served}
use wc3ts.Lan.{open_broadcaster, broadcast_games, new_broadcaster, on_games_changed}
use wc3ts.Tailscale.{fetch_self_ip}
use wc3ts.Peer.{new_manager, receive, dispatch, set_version}
use wc3ts.App.{
  App, games_changed, AppEvent, System, datagram, broadcast_tick, run_exec, services_on, app_run,
  app_step, with_version,
}
use wc3ts.App.Consistent.{started, Running, Consistent, running-Consistent}
use wc3ts.App.Joining.{announced_joins}
use wc3ts.App.Silent.{FromV4, running-announces}
use wc3ts.Lan.Broadcast.{announcements}
use wc3ts.Game.Key.{IsV4, is_v4}
use wc3ts.Tests.Data.{packet, lobby, remote_game}
use wc3ts.Tests.Connections.{connection}

-- The packet of a game, and else a Join packet for it.
abbrev pub decoder : Decoder
decoder [] = none
decoder (c ∷ s) =
    if c == 247
    then some (game_info (lobby 3))
    else some (join (record { host_counter = 3; player_name = codes "bob" }))

abbrev pub system : System
system = record {
  listener = some (tcp_addr 40000);
  manager_socket = true;
  broadcaster_socket = true;
  status = none;
  responder_socket = false;
}

abbrev pub sender : UdpAddr
sender = record { ip = 100 ∷ 64 ∷ 0 ∷ 7 ∷ []; port = 6112 }

abbrev events : List AppEvent
events =
    datagram (record { walk = straight; now = 30; later = 31 }) packet (some sender)
    ∷ broadcast_tick straight
    ∷ []

abbrev first : App
first = started (with_version 27 (default_config (codes "W3XP"))) system 40000

abbrev app : App
app = app_run decoder events first

abbrev running : Running decoder app
unfolding run_exec new_tcp_proxy new_manager open_broadcaster
running = record {
  product = codes "W3XP";
  version = 27;
  system = system;
  first = first;
  starts = refl;
  events = events;
  runs = refl;
}

running-Consistent_example : Consistent app
running-Consistent_example = running-Consistent decoder app running

-- The game as it was received: the name of its host is not known yet.
abbrev received : Game
received = record remote_game { peer_name = []; first_seen = 30; last_seen = 31 }

has_received : app.broadcaster.games ≡ received ∷ []
unfolding app_run app_step services_on key addr_text decimal new_registry add stored snapshot
    addr_from_slice is_loopback broadcast_games receive games_changed bytes_discrete ℕ_discrete
    new_broadcaster dispatch fetch_self_ip on_games_changed get put set_version
has_received = refl

announced_joins_example :
    (x : Game) × (lookup (key x) app.registry.games ≡ some x)
    × Answers 3 x
    × (handle_connection decoder straight app.registry connection
        ≡ served connection (codes "join") x)
unfolding read_join_packet
announced_joins_example =
    announced_joins decoder app received straight connection
      (record { host_counter = 3; player_name = codes "bob" }) (codes "join") running
      (subst (Mem received) (sym has_received) mem-cons_self) refl refl refl

from_v4 : All FromV4 events
unfolding addr_from_slice
from_v4 =
    (λ ip e. let same : v4 100 64 0 7 ≡ ip = cc e in subst IsV4 same (is_v4 100 64 0 7), (tt, tt))

running-announces_example :
    (broadcast_games straight app.broadcaster).1
    ≡ announcements app.broadcaster.proxy_port app.broadcaster.games
unfolding running
running-announces_example = running-announces decoder app straight running from_v4
