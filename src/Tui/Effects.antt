-- ===== src/Tui/Effects.antt =====
-- tui/update.go: how many effects an update has.
use wc3ts.Prelude.{ℕ, ◌≤◌, Bool, true, false, [], ◌∷◌, Bytes, length, arith, if◌then◌else◌}
use wc3ts.Tailscale.{Peer}
use wc3ts.Sorting.{Sorter}
use wc3ts.Tui.{
  Tables, Model, KeyType, key_esc, key_enter, key_other, Action, to_quit, to_toggle, to_move_up,
  to_move_down, to_previous, to_next, to_sort, to_refresh, no_action, Msg, key_msg, window_size_msg,
  peers_msg, games_msg, log_msg, port_msg, other_msg, act, handle_type, cycle_version, key_action,
}
use wc3ts.Tui.Update.{update, handle_key, in_list}

unfoldable pub most_effects : Msg → ℕ
most_effects (key_msg k s) = 1
most_effects _ = 0

module _ (ops : Tables) (sorter : Sorter Peer) where
  length_if : {A : Type 0} (b : Bool) (e : A) → length (if b then e ∷ [] else []) ≤ 1
  length_if true e = omega arith
  length_if false e = omega arith

  length-act : (a : Action) (k : KeyType) (m : Model ops) → length (act ops sorter a k m).1 ≤ 1
  unfolding act cycle_version handle_type
  length-act to_quit k m = omega arith
  length-act to_toggle k m = omega arith
  length-act to_move_up k m = omega arith
  length-act to_move_down k m = omega arith
  length-act to_previous k m = length_if m.version_cb _
  length-act to_next k m = length_if m.version_cb _
  length-act to_sort k m = omega arith
  length-act to_refresh k m = length_if m.refresh_cb _
  length-act no_action key_enter m = length_if m.refresh_cb _
  length-act no_action key_esc m = omega arith
  length-act no_action key_other m = omega arith

  length_in_view :
      (b : Bool) (k : KeyType) (s : Bytes) (m : Model ops)
      → length (if b then act ops sorter (key_action s) k m else (m, [])).1 ≤ 1
  length_in_view true k s m = length-act (key_action s) k m
  length_in_view false k s m = omega arith

  -- A key has at most one effect, and no other message has any.
  pub length-update :
      (msg : Msg) (m : Model ops) → length (update ops sorter msg m).1 ≤ most_effects msg
  unfolding update handle_key most_effects
  length-update (key_msg key_esc s) m = omega arith
  length-update (key_msg key_enter s) m =
      let h = length_in_view (in_list m.view_mode) key_enter s m in omega arith
  length-update (key_msg key_other s) m =
      let h = length_in_view (in_list m.view_mode) key_other s m in omega arith
  length-update (window_size_msg w h) m = omega arith
  length-update (peers_msg peers) m = omega arith
  length-update (games_msg games) m = omega arith
  length-update (log_msg s) m = omega arith
  length-update (port_msg n) m = omega arith
  length-update other_msg m = omega arith
