-- ===== src/Program/Service.antt =====
-- cmd/wc3ts/run.go: what an event of the services brings to the interface.
use wc3ts.App
use wc3ts.Net.{UdpAddr}
use wc3ts.App.{
  is_some, App, AppEvent, Output, version_chosen, refresh_chosen, app_step, games_changed,
  peers_changed,
}
use wc3ts.Prelude.{◌≡◌, refl, ap, List, [], ◌∷◌, map, Option, none, some, Bytes, if◌then◌else◌}
use wc3ts.W3gs.{Decoder}
use wc3ts.Game.{Game}
use wc3ts.Game.Registry.{Registry}
use wc3ts.Tailscale.{Peer, Discovery, update_from_net_map}
use wc3ts.Lan.{broadcast_games, on_games_changed}
use wc3ts.Peer.{Probe, Reply, receive, on_peers_changed, probe_all_peers, on_search_game}
use wc3ts.Program.{
  to_screen, FromService, a_net_map, a_probe_tick, a_datagram, a_broadcast_tick, a_connection,
  a_search_query,
}
use wc3ts.Program.Due.{due_games, due_peers}

pub to_screen-probes : (l : List Probe) → to_screen (map App.probe l) ≡ []
unfolding to_screen
to_screen-probes [] = refl
to_screen-probes (p ∷ l) = to_screen-probes l

to_screen-packets : (l : List Bytes) → to_screen (map App.lan_packet l) ≡ []
unfolding to_screen
to_screen-packets [] = refl
to_screen-packets (p ∷ l) = to_screen-packets l

to_screen-replies : (l : List Reply) → to_screen (map App.reply l) ≡ []
unfolding to_screen
to_screen-replies [] = refl
to_screen-replies (p ∷ l) = to_screen-replies l

-- The configuration and the version stay, and the interface is sent what the broadcaster and the
-- manager have got.
pub record Served (a a' : App) (outputs : List Output) : Type 0 where
  pub same_cfg : a'.cfg ≡ a.cfg
  pub same_version : a'.peer_manager.version ≡ a.peer_manager.version
  pub sends_games : due_games (to_screen outputs) a.broadcaster.games ≡ a'.broadcaster.games
  pub sends_peers : due_peers (to_screen outputs) a.peer_manager.peers ≡ a'.peer_manager.peers

-- Nothing of these changes, and no message is sent.
unchanged : (a : App) (outputs : List Output) → to_screen outputs ≡ [] → Served a a outputs
unfolding due_games due_peers
unchanged a outputs e = record {
  same_cfg = refl;
  same_version = refl;
  sends_games = rw e refl;
  sends_peers = rw e refl;
}

games_changed-Served :
    (call : Option (List Game)) (a : App) (r : Registry)
    → let (a', outputs) = games_changed call (record a { registry = r }) in Served a a' outputs
unfolding games_changed on_games_changed to_screen due_games due_peers
games_changed-Served none a r = record {
  same_cfg = refl;
  same_version = refl;
  sends_games = refl;
  sends_peers = refl;
}
games_changed-Served (some games) a r = record {
  same_cfg = refl;
  same_version = refl;
  sends_games = refl;
  sends_peers = refl;
}

peers_changed-Served :
    (call : Option (List Peer)) (a : App) (d : Discovery)
    → let (a', outputs) = peers_changed call (record a { discovery = d }) in Served a a' outputs
unfolding peers_changed on_peers_changed to_screen due_games due_peers
peers_changed-Served none a d = record {
  same_cfg = refl;
  same_version = refl;
  sends_games = refl;
  sends_peers = refl;
}
peers_changed-Served (some peers) a d =
    let probes = (on_peers_changed peers a.peer_manager).1 in
    record {
      same_cfg = refl;
      same_version = refl;
      sends_games = ap (λ l. due_games l a.broadcaster.games) (to_screen-probes probes);
      sends_peers = ap (λ l. due_peers l peers) (to_screen-probes probes);
    }

pub app_step-Served :
    (decode : Decoder) (e : AppEvent) (a : App)
    → FromService e
    → let (a', outputs) = app_step decode e a in Served a a' outputs
unfolding app_step broadcast_games to_screen due_games due_peers
app_step-Served decode e a (a_net_map nm) =
    peers_changed-Served (update_from_net_map nm a.discovery).1 a _
app_step-Served decode e a (a_datagram t s from) =
    games_changed-Served (receive decode _ a.registry).1 a _
app_step-Served decode e a a_probe_tick =
    unchanged a _ (to_screen-probes (probe_all_peers a.peer_manager))
app_step-Served decode e a (a_broadcast_tick w) =
    let packets = (broadcast_games w a.broadcaster).1 in
    record {
      same_cfg = refl;
      same_version = refl;
      sends_games = ap (λ l. due_games l a.broadcaster.games) (to_screen-packets packets);
      sends_peers = ap (λ l. due_peers l a.peer_manager.peers) (to_screen-packets packets);
    }
app_step-Served decode e a (a_connection w c) = unchanged a _ refl
app_step-Served decode e a (a_search_query w from) = unchanged a _ (answered a.responder)
  where
    answered :
        (o : Option UdpAddr)
        → to_screen (if is_some o then map App.reply (on_search_game w from a.registry) else [])
          ≡ []
    answered none = refl
    answered (some addr) = to_screen-replies (on_search_game w from a.registry)
