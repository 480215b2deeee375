-- ===== src/Tui/Keys.antt =====
-- tui/update.go: what a key leaves as it is.
use wc3ts.Prelude.{
  ◌≡◌, refl, true, false, Bool, List, [], Option, none, some, Bytes, ℕ, Perm, if◌then◌else◌,
}
use mathlib.Core.List.Perm
use wc3ts.Prelude.Assoc.{Assoc}
use wc3ts.Tui.Rows.{games_less}
use wc3ts.Tailscale.{Peer}
use wc3ts.Game.{Game}
use wc3ts.Sorting.{Sorter}
use wc3ts.Tui.{
  Tables, Model, view_mode_list, KeyType, key_esc, key_enter, key_other, Action, to_quit, to_toggle,
  to_move_up, to_move_down, to_previous, to_next, to_sort, to_refresh, no_action, FocusedPanel,
  focus_peers, focus_games, act, handle_type, show_detail_view, show_peer, show_game, toggle_focus,
  navigate_up, navigate_down, cycle_version, sort_peers_by_games, key_action,
}
use wc3ts.Tui.Update.{handle_key, leave_detail, in_list}

pub record Kept (logs logs' : List Bytes) (games games' : List Game)
    (counts counts' : Assoc Bytes ℕ) (port port' : ℕ) (peers peers' : List Peer) : Type 0 where
  pub same_logs : logs' ≡ logs
  pub same_games : games' ≡ games
  pub same_counts : counts' ≡ counts
  pub same_port : port' ≡ port
  pub same_peers : Perm peers' peers

-- The log, the games, their counts and the port are the same, and so are the peers but for their
-- order.
abbrev pub Same : {ops : Tables} → Model ops → Model ops → Type 0
Same m n =
    Kept m.logs n.logs m.games n.games m.peer_games n.peer_games m.proxy_port n.proxy_port m.peers
      n.peers

module _ (ops : Tables) where
  same : (m : Model ops) → Same m m
  same m = record {
    same_logs = refl;
    same_games = refl;
    same_counts = refl;
    same_port = refl;
    same_peers = Perm.refl m.peers;
  }

  show_peer-Same : (o : Option Peer) (m : Model ops) → Same m (show_peer ops o m)
  unfolding show_peer
  show_peer-Same none m = same m
  show_peer-Same (some p) m = same m

  show_game-Same : (o : Option Game) (m : Model ops) → Same m (show_game ops o m)
  unfolding show_game
  show_game-Same none m = same m
  show_game-Same (some g) m = same m

  show_detail_view-Same : (f : FocusedPanel) (m : Model ops) → Same m (show_detail_view ops f m)
  unfolding show_detail_view
  show_detail_view-Same focus_peers m = show_peer-Same _ m
  show_detail_view-Same focus_games m = show_game-Same _ m

  handle_type-Same : (k : KeyType) (m : Model ops) → Same m (handle_type ops k m).0
  unfolding handle_type
  handle_type-Same key_enter m = show_detail_view-Same m.focused m
  handle_type-Same key_esc m = same m
  handle_type-Same key_other m = same m

  toggle_focus-Same : (f : FocusedPanel) (m : Model ops) → Same m (toggle_focus ops f m)
  unfolding toggle_focus
  toggle_focus-Same focus_peers m = same m
  toggle_focus-Same focus_games m = same m

  navigate_up-Same : (f : FocusedPanel) (m : Model ops) → Same m (navigate_up ops f m)
  unfolding navigate_up
  navigate_up-Same focus_peers m = same m
  navigate_up-Same focus_games m = same m

  navigate_down-Same : (f : FocusedPanel) (m : Model ops) → Same m (navigate_down ops f m)
  unfolding navigate_down
  navigate_down-Same focus_peers m = same m
  navigate_down-Same focus_games m = same m

  act-Same :
      (sorter : Sorter Peer) (a : Action) (k : KeyType) (m : Model ops)
      → Same m (act ops sorter a k m).0
  unfolding act cycle_version sort_peers_by_games
  act-Same sorter to_quit k m = same m
  act-Same sorter to_toggle k m = toggle_focus-Same m.focused m
  act-Same sorter to_move_up k m = navigate_up-Same m.focused m
  act-Same sorter to_move_down k m = navigate_down-Same m.focused m
  act-Same sorter to_previous k m = same m
  act-Same sorter to_next k m = same m
  act-Same sorter to_sort k m = record {
    same_logs = refl;
    same_games = refl;
    same_counts = refl;
    same_port = refl;
    same_peers = sorter.sort-perm (games_less m.peer_games) m.peers;
  }
  act-Same sorter to_refresh k m = same m
  act-Same sorter no_action k m = handle_type-Same k m

  if-Same :
      (sorter : Sorter Peer) (b : Bool) (k : KeyType) (s : Bytes) (m : Model ops)
      → Same m (if b then act ops sorter (key_action s) k m else (m, [])).0
  if-Same sorter true k s m = act-Same sorter (key_action s) k m
  if-Same sorter false k s m = same m

  leave-Same :
      (b : Bool) (m : Model ops)
      → Same m (
          if b
          then m
          else record m { view_mode = view_mode_list; selected_peer = none; selected_game = none })
  leave-Same true m = same m
  leave-Same false m = same m

  pub handle_key-Same :
      (sorter : Sorter Peer) (k : KeyType) (s : Bytes) (m : Model ops)
      → Same m (handle_key ops sorter k s m).0
  unfolding handle_key leave_detail
  handle_key-Same sorter key_esc s m = leave-Same (in_list m.view_mode) m
  handle_key-Same sorter key_enter s m = if-Same sorter (in_list m.view_mode) key_enter s m
  handle_key-Same sorter key_other s m = if-Same sorter (in_list m.view_mode) key_other s m
