-- ===== src/Tui/Update.antt =====
-- tui/update.go: `Update`, and the interface over all the messages that it gets.
use wc3ts.Prelude.{
  ℕ, ◌-◌, ◌*◌, ◌/◌, Bool, true, false, List, [], ◌∷◌, ◌++◌, none, Bytes, length, drop, ltb,
  if◌then◌else◌,
}
use wc3ts.Tailscale.{Peer}
use wc3ts.Sorting.{Sorter}
use wc3ts.Tui.Rows.{peer_rows, game_rows, os_less, game_counts}
use wc3ts.Tui.{
  Tables, Model, ViewMode, view_mode_list, KeyType, key_esc, Msg, key_msg, window_size_msg,
  peers_msg, games_msg, log_msg, port_msg, other_msg, Effect, key_action, act, min_table_height,
  min_log_height, max_log_lines, fixed_ui_height,
}

-- The last lines of a log that has got one more.
unfoldable pub keep_last : List Bytes → List Bytes
keep_last logs =
    if ltb max_log_lines (length logs) then drop (length logs - max_log_lines) logs else logs

abbrev pub at_least : ℕ → ℕ → ℕ
at_least least n = if ltb n least then least else n

abbrev pub in_list : ViewMode → Bool
in_list view_mode_list = true
in_list _ = false

module _ (ops : Tables) where
  unfoldable pub leave_detail : Model ops → Model ops
  leave_detail m =
      if in_list m.view_mode
      then m
      else record m { view_mode = view_mode_list; selected_peer = none; selected_game = none }

  unfoldable pub handle_key : Sorter Peer → KeyType → Bytes → Model ops → Model ops × List Effect
  unfolding leave_detail
  handle_key sorter key_esc s m = (leave_detail m, [])
  handle_key sorter k s m =
      if in_list m.view_mode then act ops sorter (key_action s) k m else (m, [])

  -- the tables and the log share the height that is left
  unfoldable pub resize : ℕ → Model ops → Model ops
  resize available m =
      if ltb 0 available
      then record m {
        log_height = at_least min_log_height (available * 30 / 100);
        peer_table = ops.set_height (at_least min_table_height (available * 35 / 100)) m.peer_table;
        game_table = ops.set_height (at_least min_table_height (available * 35 / 100)) m.game_table;
      }
      else m

  unfoldable pub update : Sorter Peer → Msg → Model ops → Model ops × List Effect
  unfolding handle_key resize keep_last
  update sorter (key_msg k s) m = handle_key sorter k s m
  update sorter (window_size_msg width height) m = (
    resize (height - fixed_ui_height) (record m { width = width; height = height; ready = true }),
    [],
  )
  update sorter (peers_msg peers) m =
      let sorted = sorter.sort os_less peers in
      (
        record m {
          peers = sorted;
          peer_table = ops.set_rows (peer_rows m.peer_games sorted) m.peer_table;
        },
        [],
      )
  update sorter (games_msg games) m =
      let counts = game_counts games in
      (
        record m {
          games = games;
          peer_games = counts;
          game_table = ops.set_rows (game_rows games) m.game_table;
          peer_table = ops.set_rows (peer_rows counts m.peers) m.peer_table;
        },
        [],
      )
  update sorter (log_msg message) m = (record m { logs = keep_last (m.logs ++ message ∷ []) }, [])
  update sorter (port_msg port) m = (record m { proxy_port = port }, [])
  update sorter other_msg m = (m, [])

  -- The interface over its messages; each sort may break ties in a way of its own.
  unfoldable pub run : List (Sorter Peer × Msg) → Model ops → Model ops
  unfolding update
  run [] m = m
  run ((sorter, msg) ∷ rest) m = run rest (update sorter msg m).0
