-- ===== src/Tui/View/Shown.antt =====
-- tui/view.go: which view is shown.
use wc3ts.Prelude.{
  ℕ, ◌≡◌, refl, sym, subst, if◌then◌else◌, Bool, true, false, List, Option, some, ◌++◌, codes,
  Bytes,
}
use wc3ts.W3gs.{GameVersion}
use wc3ts.Game.{Game}
use wc3ts.Tailscale.{Peer}
use wc3ts.Version.{Info}
use wc3ts.Sorting.{Sorter}
use wc3ts.Tui.{
  Tables, Model, Msg, ViewMode, view_mode_list, view_mode_detail_peer, view_mode_detail_game,
  new_model,
}
use wc3ts.Tui.Update.{run}
use wc3ts.Tui.Screen.{Selects, nothing, one_peer, one_game, Selected, run-Selected}
use wc3ts.Tui.View.Style.{Renderer, new_styles}
use wc3ts.Tui.View.Detail.{newline, peer_view, game_view, view_peer_detail, view_game_detail}
use wc3ts.Tui.View.{view, view_in, list_view}

module _ {ops : Tables} (r : Renderer ops) (now later : ℕ) where
  -- The texts that an interface in good order shows.
  pub data Shows (m : Model ops) : Bytes → Type 0 where
    goodbye : m.quitting ≡ true → Shows m (codes "Goodbye!" ++ newline)
    initializing :
        m.quitting ≡ false → m.ready ≡ false → Shows m (codes "Initializing..." ++ newline)
    listing :
        m.quitting ≡ false
        → m.ready ≡ true
        → m.view_mode ≡ view_mode_list
        → Shows m (list_view r new_styles m)
    peer_details :
        (p : Peer)
        → m.quitting ≡ false
        → m.ready ≡ true
        → m.view_mode ≡ view_mode_detail_peer
        → m.selected_peer ≡ some p
        → Shows m (peer_view r new_styles p m.games)
    game_details :
        (g : Game)
        → m.quitting ≡ false
        → m.ready ≡ true
        → m.view_mode ≡ view_mode_detail_game
        → m.selected_game ≡ some g
        → Shows m (game_view r new_styles now later g)

  view_in-Shows :
      (m : Model ops) (v : ViewMode) (p : Option Peer) (g : Option Game)
      → m.quitting ≡ false
      → m.ready ≡ true
      → m.view_mode ≡ v
      → m.selected_peer ≡ p
      → m.selected_game ≡ g
      → Selects v p g
      → Shows m (view_in r v now later m)
  unfolding view_in view_peer_detail view_game_detail
  view_in-Shows m v p g stays ready ev ep eg nothing = listing stays ready ev
  view_in-Shows m v p g stays ready ev ep eg (one_peer x) =
      subst (λ o. Shows m (view_peer_detail r new_styles o m.games)) (sym ep)
        (peer_details x stays ready ev ep)
  view_in-Shows m v p g stays ready ev ep eg (one_game x) =
      subst (λ o. Shows m (view_game_detail r new_styles now later o)) (sym eg)
        (game_details x stays ready ev eg)

  if-Shows :
      (m : Model ops) (q e : Bool)
      → m.quitting ≡ q
      → m.ready ≡ e
      → Selected m
      → Shows m (
          if q
          then codes "Goodbye!" ++ newline
          else if e
          then view_in r m.view_mode now later m
          else codes "Initializing..." ++ newline)
  if-Shows m true e hq he h = goodbye hq
  if-Shows m false false hq he h = initializing hq he
  if-Shows m false true hq he h = view_in-Shows m _ _ _ hq he refl refl refl h

  view-Shows : (m : Model ops) → Selected m → Shows m (view r now later m)
  unfolding view
  view-Shows m h = if-Shows m m.quitting m.ready refl refl h

  -- After any messages: `View` shows the farewell if the interface quits, and else, if it is not
  -- ready, says so. If it is ready and does not quit, it shows the list view; or, in the view of a
  -- peer, the details of the peer that is selected, with the games that the interface has; or, in
  -- the view of a game, the details of the game that is selected. It never says that no peer or no
  -- game is selected.
  pub view-run :
      (msgs : List (Sorter Peer × Msg)) (port : ℕ) (version : GameVersion) (build : Info)
      (v c : Bool)
      → let m = run ops msgs (new_model ops port version build v c) in Shows m (view r now later m)
  view-run msgs port version build v c = view-Shows _ (run-Selected ops msgs port version build v c)
