-- ===== src/Tui/Screen.antt =====
-- tui/update.go: the views and what is selected in them.
use wc3ts.Prelude.{
  ◌≡◌, refl, ℕ, ltb, true, false, Bool, List, [], ◌∷◌, Option, none, some, Bytes, Bool-cases, inl,
  inr, if◌then◌else◌,
}
use wc3ts.W3gs.{GameVersion}
use wc3ts.Tailscale.{Peer}
use wc3ts.Version.{Info}
use wc3ts.Game.{Game}
use wc3ts.Sorting.{Sorter}
use wc3ts.Tui.{
  Tables, Model, ViewMode, view_mode_list, view_mode_detail_peer, view_mode_detail_game, KeyType,
  key_esc, key_enter, key_other, Action, to_quit, to_toggle, to_move_up, to_move_down, to_previous,
  to_next, to_sort, to_refresh, no_action, FocusedPanel, focus_peers, focus_games, Msg, key_msg,
  window_size_msg, peers_msg, games_msg, log_msg, port_msg, other_msg, act, handle_type,
  show_detail_view, show_peer, show_game, toggle_focus, navigate_up, navigate_down, cycle_version,
  sort_peers_by_games, key_action, new_model,
}
use wc3ts.Tui.Update.{handle_key, leave_detail, in_list, update, run, resize}

-- What is selected in a view: nothing in the list, a peer or a game in its detail view.
pub data Selects : ViewMode → Option Peer → Option Game → Type 0 where
  nothing : Selects view_mode_list none none
  one_peer : (p : Peer) → Selects view_mode_detail_peer (some p) none
  one_game : (g : Game) → Selects view_mode_detail_game none (some g)

abbrev pub Selected : {ops : Tables} → Model ops → Type 0
Selected m = Selects m.view_mode m.selected_peer m.selected_game

-- The list view, in which nothing is selected.
record Listing {ops : Tables} (m : Model ops) : Type 0 where
  pub view : m.view_mode ≡ view_mode_list
  pub no_peer : m.selected_peer ≡ none
  pub no_game : m.selected_game ≡ none

module _ (ops : Tables) where
  Listing-Selected : (m : Model ops) → Listing m → Selected m
  Listing-Selected m l = rw (l.view, l.no_peer, l.no_game) nothing

  Selects-Listing :
      (m : Model ops) (v : ViewMode) (p : Option Peer) (g : Option Game)
      → m.view_mode ≡ v
      → m.selected_peer ≡ p
      → m.selected_game ≡ g
      → Selects v p g
      → in_list v ≡ true
      → Listing m
  Selects-Listing m v p g a b c nothing e = record { view = a; no_peer = b; no_game = c }
  Selects-Listing m v p g a b c (one_peer x) e = cc
  Selects-Listing m v p g a b c (one_game x) e = cc

  show_peer-Selected : (o : Option Peer) (m : Model ops) → Listing m → Selected (show_peer ops o m)
  unfolding show_peer
  show_peer-Selected none m l = Listing-Selected m l
  show_peer-Selected (some p) m l = rw l.no_game (one_peer p)

  show_game-Selected : (o : Option Game) (m : Model ops) → Listing m → Selected (show_game ops o m)
  unfolding show_game
  show_game-Selected none m l = Listing-Selected m l
  show_game-Selected (some g) m l = rw l.no_peer (one_game g)

  show_detail_view-Selected :
      (f : FocusedPanel) (m : Model ops) → Listing m → Selected (show_detail_view ops f m)
  unfolding show_detail_view
  show_detail_view-Selected focus_peers m l = show_peer-Selected _ m l
  show_detail_view-Selected focus_games m l = show_game-Selected _ m l

  handle_type-Selected :
      (k : KeyType) (m : Model ops) → Listing m → Selected (handle_type ops k m).0
  unfolding handle_type
  handle_type-Selected key_enter m l = show_detail_view-Selected m.focused m l
  handle_type-Selected key_esc m l = Listing-Selected m l
  handle_type-Selected key_other m l = Listing-Selected m l

  move-Selected :
      (f : FocusedPanel) (m : Model ops)
      → Listing m
      → Selected (toggle_focus ops f m)
        × Selected (navigate_up ops f m)
        × Selected (navigate_down ops f m)
  unfolding toggle_focus navigate_up navigate_down
  move-Selected focus_peers m l = (Listing-Selected m l, Listing-Selected m l, Listing-Selected m l)
  move-Selected focus_games m l = (Listing-Selected m l, Listing-Selected m l, Listing-Selected m l)

  act-Selected :
      (sorter : Sorter Peer) (a : Action) (k : KeyType) (m : Model ops)
      → Listing m
      → Selected (act ops sorter a k m).0
  unfolding act cycle_version sort_peers_by_games
  act-Selected sorter to_quit k m l = Listing-Selected m l
  act-Selected sorter to_toggle k m l = (move-Selected m.focused m l).0
  act-Selected sorter to_move_up k m l = (move-Selected m.focused m l).1
  act-Selected sorter to_move_down k m l = (move-Selected m.focused m l).2
  act-Selected sorter to_previous k m l = Listing-Selected m l
  act-Selected sorter to_next k m l = Listing-Selected m l
  act-Selected sorter to_sort k m l = Listing-Selected m l
  act-Selected sorter to_refresh k m l = Listing-Selected m l
  act-Selected sorter no_action k m l = handle_type-Selected k m l

  if-Selected :
      (sorter : Sorter Peer) (b : Bool) (k : KeyType) (s : Bytes) (m : Model ops)
      → in_list m.view_mode ≡ b
      → Selected m
      → Selected (if b then act ops sorter (key_action s) k m else (m, [])).0
  if-Selected sorter true k s m e h =
      act-Selected sorter (key_action s) k m (Selects-Listing m _ _ _ refl refl refl h e)
  if-Selected sorter false k s m e h = h

  leave-Selected :
      (b : Bool) (m : Model ops)
      → Selected m
      → Selected (
          if b
          then m
          else record m { view_mode = view_mode_list; selected_peer = none; selected_game = none })
  leave-Selected true m h = h
  leave-Selected false m h = nothing

  handle_key-Selected :
      (sorter : Sorter Peer) (k : KeyType) (s : Bytes) (m : Model ops)
      → Selected m
      → Selected (handle_key ops sorter k s m).0
  unfolding handle_key leave_detail
  handle_key-Selected sorter key_esc s m h = leave-Selected (in_list m.view_mode) m h
  handle_key-Selected sorter key_enter s m h =
      if-Selected sorter (in_list m.view_mode) key_enter s m refl h
  handle_key-Selected sorter key_other s m h =
      if-Selected sorter (in_list m.view_mode) key_other s m refl h

  resize-Selected : (n : ℕ) (m : Model ops) → Selected m → Selected (resize ops n m)
  unfolding resize
  resize-Selected n m h = elim (Bool-cases (ltb 0 n)) [ inl e ↦ rw e h | inr e ↦ rw e h ]

  update-Selected :
      (sorter : Sorter Peer) (msg : Msg) (m : Model ops)
      → Selected m
      → Selected (update ops sorter msg m).0
  unfolding update
  update-Selected sorter (key_msg k s) m h = handle_key-Selected sorter k s m h
  update-Selected sorter (window_size_msg width height) m h = resize-Selected _ _ h
  update-Selected sorter (peers_msg peers) m h = h
  update-Selected sorter (games_msg games) m h = h
  update-Selected sorter (log_msg s) m h = h
  update-Selected sorter (port_msg port) m h = h
  update-Selected sorter other_msg m h = h

  step-Selected :
      (msgs : List (Sorter Peer × Msg)) (m : Model ops) → Selected m → Selected (run ops msgs m)
  unfolding run
  step-Selected [] m h = h
  step-Selected ((sorter, msg) ∷ rest) m h =
      step-Selected rest (update ops sorter msg m).0 (update-Selected sorter msg m h)

  -- After any messages: in the list view nothing is selected; in the detail view of a peer a peer is
  -- selected and no game, and in that of a game a game and no peer. So a detail view always has what
  -- it shows.
  pub run-Selected :
      (msgs : List (Sorter Peer × Msg)) (port : ℕ) (version : GameVersion) (build : Info)
      (v r : Bool)
      → Selected (run ops msgs (new_model ops port version build v r))
  unfolding new_model
  run-Selected msgs port version build v r = step-Selected msgs _ nothing
