-- ===== src/Tui/Told.antt =====
-- tui/update.go: the callbacks that an update calls, and the version that is shown.
use wc3ts.Prelude.{
  ℕ, ◌≡◌, ◌≢◌, refl, ap, Bool, true, false, List, [], ◌∷◌, Option, none, some, Bytes, Bool-cases,
  inl, inr, if◌then◌else◌, ltb,
}
use wc3ts.W3gs.{GameVersion}
use wc3ts.Tailscale.{Peer}
use wc3ts.Game.{Game}
use wc3ts.Sorting.{Sorter}
use wc3ts.Tui.{
  Tables, Model, view_mode_list, KeyType, key_esc, key_enter, key_other, Action, to_quit, to_toggle,
  to_move_up, to_move_down, to_previous, to_next, to_sort, to_refresh, no_action, FocusedPanel,
  focus_peers, focus_games, Msg, key_msg, window_size_msg, peers_msg, games_msg, log_msg, port_msg,
  other_msg, Effect, version_called, refresh_called, quit, act, handle_type, show_detail_view,
  show_peer, show_game, toggle_focus, navigate_up, navigate_down, cycle_version,
  sort_peers_by_games, key_action,
}
use wc3ts.Tui.Update.{handle_key, leave_detail, in_list, update, resize}

-- The version after the callbacks were called.
unfoldable pub told : List Effect → GameVersion → GameVersion
told [] v = v
told (version_called n ∷ effects) v = told effects (record v { version = n })
told (refresh_called ∷ effects) v = told effects v
told (quit ∷ effects) v = told effects v

pub record Tracks (effects : List Effect) (v v' : GameVersion) (cb cb' rb rb' : Bool) : Type 0 where
  pub tells : v' ≡ told effects v
  pub same_version_cb : cb' ≡ cb
  pub same_refresh_cb : rb' ≡ rb

-- The callbacks stay, and are told the version that is shown.
abbrev pub Tracked : {ops : Tables} → Model ops → Model ops × List Effect → Type 0
Tracked m (n, effects) =
    Tracks effects m.version n.version m.version_cb n.version_cb m.refresh_cb n.refresh_cb

module _ (ops : Tables) where
  quiet : (m : Model ops) → Tracked m (m, [])
  unfolding told
  quiet m = record { tells = refl; same_version_cb = refl; same_refresh_cb = refl }

  refreshed : (m : Model ops) (b : Bool) → Tracked m (m, if b then refresh_called ∷ [] else [])
  unfolding told
  refreshed m true = record { tells = refl; same_version_cb = refl; same_refresh_cb = refl }
  refreshed m false = quiet m

  moves-Tracked :
      (f : FocusedPanel) (m : Model ops)
      → Tracked m (toggle_focus ops f m, [])
        × Tracked m (navigate_up ops f m, [])
        × Tracked m (navigate_down ops f m, [])
  unfolding toggle_focus navigate_up navigate_down told
  moves-Tracked focus_peers m = (quiet m, quiet m, quiet m)
  moves-Tracked focus_games m = (quiet m, quiet m, quiet m)

  show_peer-Tracked :
      (o : Option Peer) (m : Model ops) (b : Bool)
      → Tracked m (show_peer ops o m, if b then refresh_called ∷ [] else [])
  unfolding show_peer
  show_peer-Tracked none m b = refreshed m b
  show_peer-Tracked (some p) m b = refreshed m b

  show_game-Tracked :
      (o : Option Game) (m : Model ops) (b : Bool)
      → Tracked m (show_game ops o m, if b then refresh_called ∷ [] else [])
  unfolding show_game
  show_game-Tracked none m b = refreshed m b
  show_game-Tracked (some g) m b = refreshed m b

  show-Tracked :
      (f : FocusedPanel) (m : Model ops) (b : Bool)
      → Tracked m (show_detail_view ops f m, if b then refresh_called ∷ [] else [])
  unfolding show_detail_view
  show-Tracked focus_peers m b = show_peer-Tracked _ m b
  show-Tracked focus_games m b = show_game-Tracked _ m b

  handle_type-Tracked : (k : KeyType) (m : Model ops) → Tracked m (handle_type ops k m)
  unfolding handle_type
  handle_type-Tracked key_enter m = show-Tracked m.focused m m.refresh_cb
  handle_type-Tracked key_esc m = quiet m
  handle_type-Tracked key_other m = quiet m

  cycle_version-Tracked :
      (forward : Bool) (m : Model ops)
      → m.version_cb ≡ true
      → Tracked m (cycle_version ops forward m)
  unfolding cycle_version told
  cycle_version-Tracked forward m e = record {
    tells = rw e refl;
    same_version_cb = refl;
    same_refresh_cb = refl;
  }

  act-Tracked :
      (sorter : Sorter Peer) (a : Action) (k : KeyType) (m : Model ops)
      → m.version_cb ≡ true
      → Tracked m (act ops sorter a k m)
  unfolding act sort_peers_by_games told
  act-Tracked sorter to_quit k m e = record {
    tells = refl;
    same_version_cb = refl;
    same_refresh_cb = refl;
  }
  act-Tracked sorter to_toggle k m e = (moves-Tracked m.focused m).0
  act-Tracked sorter to_move_up k m e = (moves-Tracked m.focused m).1
  act-Tracked sorter to_move_down k m e = (moves-Tracked m.focused m).2
  act-Tracked sorter to_previous k m e = cycle_version-Tracked false m e
  act-Tracked sorter to_next k m e = cycle_version-Tracked true m e
  act-Tracked sorter to_sort k m e = quiet m
  act-Tracked sorter to_refresh k m e = refreshed m m.refresh_cb
  act-Tracked sorter no_action k m e = handle_type-Tracked k m

  in_view-Tracked :
      (sorter : Sorter Peer) (b : Bool) (k : KeyType) (s : Bytes) (m : Model ops)
      → m.version_cb ≡ true
      → Tracked m (if b then act ops sorter (key_action s) k m else (m, []))
  in_view-Tracked sorter true k s m e = act-Tracked sorter (key_action s) k m e
  in_view-Tracked sorter false k s m e = quiet m

  leave-Tracked :
      (b : Bool) (m : Model ops)
      → Tracked m (
        if b then m else record m {
          view_mode = view_mode_list;
          selected_peer = none;
          selected_game = none;
        },
        [],
      )
  leave-Tracked true m = quiet m
  leave-Tracked false m = quiet m

  resize-Tracked : (n : ℕ) (m m' : Model ops) → Tracked m (m', []) → Tracked m (resize ops n m', [])
  unfolding resize
  resize-Tracked n m m' h = elim (Bool-cases (ltb 0 n)) [ inl e ↦ rw e h | inr e ↦ rw e h ]

  -- An update keeps the callbacks, and calls that of the version exactly with the version that it
  -- then shows.
  pub update-Tracked :
      (sorter : Sorter Peer) (msg : Msg) (m : Model ops)
      → m.version_cb ≡ true
      → Tracked m (update ops sorter msg m)
  unfolding update handle_key leave_detail
  update-Tracked sorter (key_msg key_esc s) m e = leave-Tracked (in_list m.view_mode) m
  update-Tracked sorter (key_msg key_enter s) m e =
      in_view-Tracked sorter (in_list m.view_mode) key_enter s m e
  update-Tracked sorter (key_msg key_other s) m e =
      in_view-Tracked sorter (in_list m.view_mode) key_other s m e
  update-Tracked sorter (window_size_msg w h) m e = resize-Tracked _ m _ (quiet m)
  update-Tracked sorter (peers_msg peers) m e = quiet m
  update-Tracked sorter (games_msg games) m e = quiet m
  update-Tracked sorter (log_msg s) m e = quiet m
  update-Tracked sorter (port_msg port) m e = quiet m
  update-Tracked sorter other_msg m e = quiet m

-- The keys of the list view that call a callback: the two that change the version, `r`, and Enter.
pub data Calls : Action → KeyType → Type 0 where
  previous : Calls to_previous key_other
  next : Calls to_next key_other
  refreshes : Calls to_refresh key_other
  enters : Calls no_action key_enter

-- One callback is called.
pub data OneCall : List Effect → Type 0 where
  of_version : (v : ℕ) → OneCall (version_called v ∷ [])
  of_refresh : OneCall (refresh_called ∷ [])

module _ (ops : Tables) (sorter : Sorter Peer) (m : Model ops) (vcb : m.version_cb ≡ true)
    (rcb : m.refresh_cb ≡ true) where
  act-OneCall : (a : Action) (k : KeyType) → Calls a k → OneCall (act ops sorter a k m).1
  unfolding act cycle_version handle_type
  act-OneCall a k previous = rw vcb (of_version _)
  act-OneCall a k next = rw vcb (of_version _)
  act-OneCall a k refreshes = rw rcb of_refresh
  act-OneCall a k enters = rw rcb of_refresh

  in_view-OneCall :
      (b : Bool) (k : KeyType) (s : Bytes)
      → b ≡ true
      → Calls (key_action s) k
      → OneCall (if b then act ops sorter (key_action s) k m else (m, [])).1
  in_view-OneCall true k s e c = act-OneCall (key_action s) k c
  in_view-OneCall false k s e c = cc

  calls_not_esc : (a : Action) (k : KeyType) → Calls a k → k ≢ key_esc
  calls_not_esc a k previous = cc
  calls_not_esc a k next = cc
  calls_not_esc a k refreshes = cc
  calls_not_esc a k enters = cc

  pub update-OneCall :
      (k : KeyType) (s : Bytes)
      → Calls (key_action s) k
      → m.view_mode ≡ view_mode_list
      → OneCall (update ops sorter (key_msg k s) m).1
  unfolding update handle_key
  update-OneCall key_esc s c e = absurd (calls_not_esc (key_action s) key_esc c refl)
  update-OneCall key_enter s c e =
      in_view-OneCall (in_list m.view_mode) key_enter s (ap in_list e) c
  update-OneCall key_other s c e =
      in_view-OneCall (in_list m.view_mode) key_other s (ap in_list e) c
