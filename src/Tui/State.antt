-- ===== src/Tui/State.antt =====
-- tui/model.go: the state of the terminal interface, the messages that it receives, and the state it
-- starts in. The tables of the package bubbles are an interface.
use wc3ts.Prelude.{ℕ, Bool, true, false, List, [], ◌∷◌, Option, none, Bytes, codes}
use wc3ts.Prelude.Assoc.{Assoc}
use wc3ts.W3gs.{GameVersion}
use wc3ts.Game.{Game}
use wc3ts.Tailscale.{Peer}
use wc3ts.Version.{Info}
use wc3ts.Tui.Rows.{Row}

-- `table.Column`
pub record Column : Type 0 where
  pub title : Bytes
  pub width : ℕ

-- `table.Model`, with the operations in use. A table is made with its columns, its focus and its
-- height, and has no rows. The cursor is `none` if it is negative.
pub record Tables : Type 1 where
  pub Table : Type 0
  pub new_table : List Column → Bool → ℕ → Table
  pub set_rows : List Row → Table → Table
  pub set_height : ℕ → Table → Table
  pub focus : Table → Table
  pub blur : Table → Table
  pub move_up : ℕ → Table → Table
  pub move_down : ℕ → Table → Table
  pub cursor : Table → Option ℕ

pub data ViewMode : Type 0 where
  view_mode_list view_mode_detail_peer view_mode_detail_game : ViewMode

pub data FocusedPanel : Type 0 where
  focus_peers focus_games : FocusedPanel

pub record Model (ops : Tables) : Type 0 where
  pub peers : List Peer
  pub games : List Game
  -- the number of games at each address
  pub peer_games : Assoc Bytes ℕ
  pub version : GameVersion
  pub build_version : Info
  pub proxy_port : ℕ
  pub peer_table : ops.Table
  pub game_table : ops.Table
  pub logs : List Bytes
  pub log_height : ℕ
  pub width : ℕ
  pub height : ℕ
  pub ready : Bool
  pub quitting : Bool
  pub focused : FocusedPanel
  pub view_mode : ViewMode
  pub selected_peer : Option Peer
  pub selected_game : Option Game
  -- whether the callbacks are set
  pub version_cb : Bool
  pub refresh_cb : Bool

-- `tea.KeyMsg`: the type of the key, as far as it is read, and its text
pub data KeyType : Type 0 where
  key_esc key_enter key_other : KeyType

pub data Msg : Type 0 where
  key_msg : KeyType → Bytes → Msg
  window_size_msg : ℕ → ℕ → Msg
  peers_msg : List Peer → Msg
  games_msg : List Game → Msg
  log_msg : Bytes → Msg
  port_msg : ℕ → Msg
  other_msg : Msg

pub data Effect : Type 0 where
  version_called : ℕ → Effect
  refresh_called quit : Effect

abbrev pub min_table_height : ℕ
min_table_height = 3

abbrev pub min_log_height : ℕ
min_log_height = 3

abbrev pub max_log_lines : ℕ
max_log_lines = 10

abbrev pub fixed_ui_height : ℕ
fixed_ui_height = 11

abbrev pub peer_columns : List Column
peer_columns =
    record { title = codes "Name"; width = 20 }
    ∷ record { title = codes "IP"; width = 16 }
    ∷ record { title = codes "OS"; width = 10 }
    ∷ record { title = codes "Status"; width = 10 }
    ∷ record { title = codes "Games"; width = 8 }
    ∷ []

abbrev pub game_columns : List Column
game_columns =
    record { title = codes "Name"; width = 30 }
    ∷ record { title = codes "Host"; width = 15 }
    ∷ record { title = codes "Players"; width = 10 }
    ∷ record { title = codes "Source"; width = 10 }
    ∷ []

module _ (ops : Tables) where
  -- `NewModel`; the two flags tell whether there are callbacks
  unfoldable pub new_model : ℕ → GameVersion → Info → Bool → Bool → Model ops
  new_model port version build_version version_cb refresh_cb = record {
    peers = [];
    games = [];
    peer_games = [];
    version = version;
    build_version = build_version;
    proxy_port = port;
    peer_table = ops.new_table peer_columns true min_table_height;
    game_table = ops.new_table game_columns false min_table_height;
    logs = [];
    log_height = 0;
    width = 0;
    height = 0;
    ready = false;
    quitting = false;
    focused = focus_peers;
    view_mode = view_mode_list;
    selected_peer = none;
    selected_game = none;
    version_cb = version_cb;
    refresh_cb = refresh_cb;
  }
