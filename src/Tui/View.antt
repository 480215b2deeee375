-- ===== src/Tui/View.antt =====
-- tui/view.go: the text that the terminal interface shows.
pub mod Style
pub mod Detail
pub mod Shown
pub mod Ago
pub mod Totals
pub mod Window
pub mod Hosts
use wc3ts.Prelude.{
  ℕ, suc, ◌-◌, Bool, true, false, ◌||◌, List, [], ◌∷◌, ◌++◌, Bytes, codes, length, drop, ltb, ◌==◌,
  if◌then◌else◌,
}
use wc3ts.Text.{decimal}
use wc3ts.W3gs.{GameVersion}
use wc3ts.Game.{Game, is_local}
use wc3ts.Tailscale.{Peer}
use wc3ts.Version.{info_text}
use wc3ts.Tui.{
  Tables, Model, ViewMode, view_mode_list, view_mode_detail_peer, view_mode_detail_game,
  FocusedPanel, focus_peers, focus_games, max_log_lines,
}
use wc3ts.Tui.View.Style.{Renderer, Styles, new_styles}
use wc3ts.Tui.View.Detail.{newline, written, view_peer_detail, view_game_detail}

pub version_string : GameVersion → Bytes
version_string v =
    if v.version == 0
    then codes "[detecting version...]"
    else written (codes "[" ∷ v.product ∷ codes " 1." ∷ decimal v.version ∷ codes "]" ∷ [])

-- the two loops of `statusBar`
unfoldable pub online_peers : List Peer → ℕ
online_peers [] = 0
online_peers (p ∷ ps) = let rest = online_peers ps in if p.online then suc rest else rest

pub tally_games : List Game → ℕ × ℕ
tally_games [] = (0, 0)
tally_games (g ∷ gs) =
    let (local, remote) = tally_games gs in
    if is_local g.source then (suc local, remote) else (local, suc remote)

-- the line with its numbers
unfoldable pub status_text : ℕ → ℕ → ℕ × ℕ → Bytes
status_text port online (local, remote) = written (
    codes "UDP 6112 | TCP Proxy: "
    ∷ decimal port
    ∷ codes " | Peers: "
    ∷ decimal online
    ∷ codes " online | Games: "
    ∷ decimal local
    ∷ codes " local, "
    ∷ decimal remote
    ∷ codes " remote"
    ∷ [])

-- The number of lines of the log that are shown, for the height of the log.
pub display_lines : ℕ → ℕ
display_lines height = if height == 0 || ltb max_log_lines height then max_log_lines else height

pub shown_logs : ℕ → List Bytes → List Bytes
unfolding display_lines
shown_logs height logs =
    let n = display_lines height in drop (if ltb n (length logs) then length logs - n else 0) logs

abbrev focus_indicator : FocusedPanel → Bytes
focus_indicator focus_peers = codes "peers"
focus_indicator focus_games = codes "games"

-- an arrow up, a slash and an arrow down
abbrev arrows : Bytes
arrows = 226 ∷ 134 ∷ 145 ∷ b'/' ∷ 226 ∷ 134 ∷ 147 ∷ []

pub help_text : FocusedPanel → Bytes
help_text f = written (
    arrows
    ∷ codes ": navigate | tab: switch ("
    ∷ focus_indicator f
    ∷ codes ") | enter: details | r: refresh | [/]: version | s: sort | q: quit"
    ∷ [])

module _ {ops : Tables} (r : Renderer ops) where
  pub status_bar : Model ops → Bytes
  unfolding status_text online_peers tally_games
  status_bar m = status_text m.proxy_port (online_peers m.peers) (tally_games m.games)

  pub log_lines_text : Styles → List Bytes → Bytes
  log_lines_text s [] = []
  log_lines_text s (line ∷ rest) =
      r.render s.log_line (codes "  " ++ line) ++ (newline ++ log_lines_text s rest)

  pub log_section : Styles → ℕ → List Bytes → Bytes
  unfolding log_lines_text shown_logs
  log_section s height [] = r.render s.log_line (codes "  (no logs yet)") ++ newline
  log_section s height (l ∷ ls) = log_lines_text s (shown_logs height (l ∷ ls))

  -- a heading and what stands under it, with an empty line
  abbrev section : Styles → Bytes → Bytes → Bytes
  section s heading content =
      written (r.render s.header heading ∷ newline ∷ content ∷ newline ∷ newline ∷ [])

  pub title_bar : Styles → Model ops → Bytes
  unfolding version_string info_text
  title_bar s m = r.join_horizontal (
      r.render s.title (codes "wc3ts " ++ info_text m.build_version)
      ∷ codes "  "
      ∷ version_string m.version
      ∷ [])

  pub list_view : Styles → Model ops → Bytes
  unfolding title_bar log_section status_bar help_text
  list_view s m = written (
      title_bar s m
      ∷ newline
      ∷ newline
      ∷ section s (codes "Tailscale Peers") (r.table_view m.peer_table)
      ∷ section s (codes "Games") (r.table_view m.game_table)
      ∷ r.render s.header (codes "Debug Log")
      ∷ newline
      ∷ log_section s m.log_height m.logs
      ∷ r.render s.status_bar (status_bar m)
      ∷ newline
      ∷ r.render s.help (help_text m.focused)
      ∷ [])

  -- the view of a model that is ready, by its mode
  pub view_in : ViewMode → ℕ → ℕ → Model ops → Bytes
  unfolding list_view view_peer_detail view_game_detail
  view_in view_mode_list now later m = list_view new_styles m
  view_in view_mode_detail_peer now later m = view_peer_detail r new_styles m.selected_peer m.games
  view_in view_mode_detail_game now later m =
      view_game_detail r new_styles now later m.selected_game

  -- `View`; the clock shows `now` and then `later`
  pub view : ℕ → ℕ → Model ops → Bytes
  unfolding view_in
  view now later m =
      if m.quitting
      then codes "Goodbye!" ++ newline
      else if m.ready
      then view_in m.view_mode now later m
      else codes "Initializing..." ++ newline
