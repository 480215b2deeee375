-- ===== src/Tui.antt =====
-- tui/update.go: the terminal interface as a state machine. The tables of the package bubbles and
-- `sort.Slice` are interfaces. An update returns the new model and what it does: the
-- calls of the two callbacks, and the command to quit.
pub mod State
pub mod Rows
pub mod Update
pub mod Keys
pub mod Logs
pub mod Screen
pub mod Counts
pub mod Orders
pub mod Cycle
pub mod Told
pub mod Effects
pub mod View
use wc3ts.Prelude.{
  ℕ, suc, ◌+◌, ◌-◌, Bool, true, false, List, [], ◌∷◌, Option, none, some, Bytes, codes,
  bytes_discrete, holds, length, get_elem?, leb, ◌==◌, ◌||◌, if◌then◌else◌,
}
use wc3ts.Game.{Game}
use wc3ts.Tailscale.{Peer}
use wc3ts.Config.{supported_versions}
use wc3ts.Sorting.{Sorter}
use wc3ts.Tui.Rows.{peer_rows, games_less}
pub use wc3ts.Tui.State.{
  Column, Tables, ViewMode, view_mode_list, view_mode_detail_peer, view_mode_detail_game,
  FocusedPanel, focus_peers, focus_games, Model, KeyType, Msg, key_msg, window_size_msg, peers_msg,
  games_msg, log_msg, port_msg, Effect, version_called, refresh_called, quit, min_table_height,
  min_log_height, max_log_lines, fixed_ui_height, key_esc, key_enter, key_other, other_msg,
}
unfoldable pub use wc3ts.Tui.State.{new_model}

-- What the text of a key asks for in the list view.
pub data Action : Type 0 where
  to_quit to_toggle to_move_up to_move_down to_previous to_next to_sort to_refresh : Action
  no_action : Action

abbrev is_key : Bytes → Bytes → Bool
is_key s t = holds (bytes_discrete s t)

unfoldable pub key_action : Bytes → Action
key_action s =
    if is_key s (codes "q") || is_key s (codes "ctrl+c")
    then to_quit
    else if is_key s (codes "tab")
    then to_toggle
    else if is_key s (codes "up") || is_key s (codes "k")
    then to_move_up
    else if is_key s (codes "down") || is_key s (codes "j")
    then to_move_down
    else if is_key s (codes "[") || is_key s (codes "-")
    then to_previous
    else if is_key s (codes "]") || (is_key s (codes "+") || is_key s (codes "="))
    then to_next
    else if is_key s (codes "s")
    then to_sort
    else if is_key s (codes "r")
    then to_refresh
    else no_action

-- the loop that looks for the current version
pub version_index : ℕ → List ℕ → Option ℕ
version_index v [] = none
version_index v (x ∷ xs) =
    if x == v then some 0 else (elim (version_index v xs) [ none ↦ none | some i ↦ some (suc i) ])

-- The index after a step forward, or backward, in a list of the given length.
pub cycle_index : Bool → ℕ → Option ℕ → ℕ
cycle_index forward n none = 0
cycle_index true n (some i) = if leb n (i + 1) then 0 else i + 1
cycle_index false n (some i) = if i == 0 then n - 1 else i - 1

abbrev pub nth : List ℕ → ℕ → ℕ
nth xs i = elim (get_elem? xs i) [ none ↦ 0 | some x ↦ x ]

pub next_version : Bool → ℕ → ℕ
unfolding version_index cycle_index
next_version forward v =
    nth supported_versions
      (cycle_index forward (length supported_versions) (version_index v supported_versions))

module _ (ops : Tables) where
  pub toggle_focus : FocusedPanel → Model ops → Model ops
  toggle_focus focus_peers m = record m {
    focused = focus_games;
    peer_table = ops.blur m.peer_table;
    game_table = ops.focus m.game_table;
  }
  toggle_focus focus_games m = record m {
    focused = focus_peers;
    game_table = ops.blur m.game_table;
    peer_table = ops.focus m.peer_table;
  }

  pub navigate_up : FocusedPanel → Model ops → Model ops
  navigate_up focus_peers m = record m { peer_table = ops.move_up 1 m.peer_table }
  navigate_up focus_games m = record m { game_table = ops.move_up 1 m.game_table }

  pub navigate_down : FocusedPanel → Model ops → Model ops
  navigate_down focus_peers m = record m { peer_table = ops.move_down 1 m.peer_table }
  navigate_down focus_games m = record m { game_table = ops.move_down 1 m.game_table }

  pub cycle_version : Bool → Model ops → Model ops × List Effect
  unfolding next_version
  cycle_version forward m =
      let v = next_version forward m.version.version in
      (
        record m { version = record m.version { version = v } },
        if m.version_cb then version_called v ∷ [] else [],
      )

  -- What a cursor selects of a list.
  abbrev pub under : {A : Type 0} → Option ℕ → List A → Option A
  under none l = none
  under (some i) l = get_elem? l i

  pub show_peer : Option Peer → Model ops → Model ops
  show_peer none m = m
  show_peer (some p) m = record m { selected_peer = some p; view_mode = view_mode_detail_peer }

  pub show_game : Option Game → Model ops → Model ops
  show_game none m = m
  show_game (some g) m = record m { selected_game = some g; view_mode = view_mode_detail_game }

  pub show_detail_view : FocusedPanel → Model ops → Model ops
  unfolding show_peer show_game
  show_detail_view focus_peers m = show_peer (under (ops.cursor m.peer_table) m.peers) m
  show_detail_view focus_games m = show_game (under (ops.cursor m.game_table) m.games) m

  pub sort_peers_by_games : Sorter Peer → Model ops → Model ops
  sort_peers_by_games sorter m =
      let peers = sorter.sort (games_less m.peer_games) m.peers in
      record m {
        peers = peers;
        peer_table = ops.set_rows (peer_rows m.peer_games peers) m.peer_table;
      }

  abbrev call_refresh : Model ops → List Effect
  call_refresh m = if m.refresh_cb then refresh_called ∷ [] else []

  -- the end of `handleKey`, in the list view
  pub handle_type : KeyType → Model ops → Model ops × List Effect
  unfolding show_detail_view
  handle_type key_enter m = (show_detail_view m.focused m, call_refresh m)
  handle_type _ m = (m, [])

  unfoldable pub act : Sorter Peer → Action → KeyType → Model ops → Model ops × List Effect
  unfolding toggle_focus navigate_up navigate_down cycle_version sort_peers_by_games handle_type
  act sorter to_quit k m = (record m { quitting = true }, quit ∷ [])
  act sorter to_toggle k m = (toggle_focus m.focused m, [])
  act sorter to_move_up k m = (navigate_up m.focused m, [])
  act sorter to_move_down k m = (navigate_down m.focused m, [])
  act sorter to_previous k m = cycle_version false m
  act sorter to_next k m = cycle_version true m
  act sorter to_sort k m = (sort_peers_by_games sorter m, [])
  act sorter to_refresh k m = (m, call_refresh m)
  act sorter no_action k m = handle_type k m
