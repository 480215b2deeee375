-- ===== src/Program.antt =====
-- cmd/wc3ts/run.go with tui/: the services and the terminal interface together. Messages reach the
-- event loop of the package bubbletea one at a time; goroutines that send wait in `pending`, in the
-- order in which the loop receives from them. The loop calls `Update`, which calls the callbacks,
-- which log: this log line is a message that the loop sends to itself. Whether such a send blocks,
-- as it does on a channel with no buffer, is a parameter. Services that send while the loop is blocked
-- go on here where they would wait, and what is sent after the loop has ended stays in `pending`: the
-- program has fewer histories than the model, not more.
pub mod Due
pub mod Service
pub mod Owes
pub mod Current
pub mod Stuck
pub mod Race
pub mod Catches
use wc3ts.App
use wc3ts.App.{App, AppEvent, Output, version_chosen, refresh_chosen, app_step}
use wc3ts.Prelude.{
  ℕ, Bool, true, false, List, [], ◌∷◌, ◌++◌, Option, none, some, Bytes, codes, if◌then◌else◌,
}
use wc3ts.Prelude.Int.{ℤ, pos, negsuc}
use wc3ts.W3gs.{Decoder}
use wc3ts.Config.{format_version}
use wc3ts.Tailscale.{Peer}
use wc3ts.Version.{Info}
use wc3ts.Sorting.{Sorter}
use wc3ts.Logging.{Attr, LogRecord, Handler, new_handler, enabled, handle}
use wc3ts.Tui.{
  Tables, Model, Msg, key_msg, window_size_msg, port_msg, peers_msg, games_msg, log_msg, Effect,
  version_called, refresh_called, quit, new_model,
}
use wc3ts.Tui.Update.{update}

-- The event loop receives messages, is blocked in a send, or has ended.
pub data Loop : Type 0 where
  receiving blocked ended : Loop

-- A message for `Update`, or the one that `tea.Quit` makes.
pub data Incoming : Type 0 where
  message : Msg → Incoming
  quit_message : Incoming

pub record Program (ops : Tables) : Type 0 where
  pub app : App
  pub screen : Model ops
  pub pending : List Incoming
  pub loop : Loop
  -- whether `SetReady` was called
  pub log_ready : Bool

abbrev level_debug : ℤ
level_debug = negsuc 3

abbrev level_info : ℤ
level_info = pos 0

log_handler : Handler
unfolding new_handler
log_handler = new_handler level_debug

-- what `slog` makes of a record: the line that is sent, if any
pub log_line : Bool → ℤ → LogRecord → Option Bytes
unfolding log_handler
log_line ready level r = if enabled level log_handler then handle ready r log_handler else none

-- the two records of the callbacks; `time` is the print of the time
pub version_record : Bytes → ℕ → LogRecord
version_record time v = record {
  time = time;
  level_text = codes "INFO";
  message = codes "version changed";
  attrs = record { key = codes "version"; value = format_version v } ∷ [];
}

pub refresh_record : Bytes → LogRecord
refresh_record time = record {
  time = time;
  level_text = codes "DEBUG";
  message = codes "manual refresh triggered";
  attrs = [];
}

-- The outputs of the services that are messages to the interface.
pub to_screen : List Output → List Incoming
to_screen [] = []
to_screen (App.games_msg games ∷ rest) = message (games_msg games) ∷ to_screen rest
to_screen (App.peers_msg peers ∷ rest) = message (peers_msg peers) ∷ to_screen rest
to_screen (_ ∷ rest) = to_screen rest

module _ {ops : Tables} where
  -- A message that something else sends.
  unfoldable pub post : Msg → Program ops → Program ops
  post msg p = record p { pending = p.pending ++ message msg ∷ [] }

  -- The program as `runExec` starts it.
  unfoldable pub start_program : Info → App → Program ops
  start_program build a = record {
    app = a;
    screen = new_model ops 0 a.cfg.game_version build true true;
    pending = [];
    loop = receiving;
    log_ready = false;
  }

module _ {ops : Tables} (decode : Decoder) (send_blocks : Bool) where
  -- An event of the services.
  unfoldable pub serve : AppEvent → Program ops → Program ops
  unfolding to_screen
  serve e p =
      let (app, outputs) = app_step decode e p.app in
      record p { app = app; pending = p.pending ++ to_screen outputs }

  -- A line that the loop sends to itself.
  pub send_own : Option Bytes → Program ops → Program ops
  unfolding post
  send_own none p = p
  send_own (some line) p =
      if send_blocks then record p { loop = blocked } else post (log_msg line) p

  -- a callback: what it does to the services, and then its log line
  pub call_back : AppEvent → Option Bytes → Program ops → Program ops
  unfolding serve send_own
  call_back e line p = send_own line (serve e p)

  -- What an update does, before the loop receives again.
  pub perform : Bytes → List Effect → Program ops → Program ops
  unfolding call_back log_line version_record refresh_record
  perform time [] p = p
  perform time (version_called v ∷ effects) p =
      perform time effects
        (call_back (version_chosen v) (log_line p.log_ready level_info (version_record time v)) p)
  perform time (refresh_called ∷ effects) p =
      perform time effects
        (call_back refresh_chosen (log_line p.log_ready level_debug (refresh_record time)) p)
  perform time (quit ∷ effects) p =
      perform time effects (record p { pending = p.pending ++ quit_message ∷ [] })

  pub take_message : Sorter Peer → Bytes → List Incoming → Program ops → Program ops
  unfolding perform
  take_message sorter time [] p = p
  take_message sorter time (quit_message ∷ rest) p = record p { pending = rest; loop = ended }
  take_message sorter time (message msg ∷ rest) p =
      let (screen, effects) = update ops sorter msg p.screen in
      perform time effects (record p { screen = screen; pending = rest })

  -- The loop receives the first message, if it receives at all.
  pub receive_in : Sorter Peer → Bytes → Loop → Program ops → Program ops
  unfolding take_message
  receive_in sorter time receiving p = take_message sorter time p.pending p
  receive_in sorter time _ p = p

  pub receive_next : Sorter Peer → Bytes → Program ops → Program ops
  unfolding receive_in
  receive_next sorter time p = receive_in sorter time p.loop p

-- What is not sent by the services.
pub data FromOutside : Msg → Type 0 where
  a_key : (k : _) (s : Bytes) → FromOutside (key_msg k s)
  a_size : (w h : ℕ) → FromOutside (window_size_msg w h)
  a_line : (s : Bytes) → FromOutside (log_msg s)
  a_port : (n : ℕ) → FromOutside (port_msg n)

-- The events that are not the callbacks of the interface.
pub data FromService : AppEvent → Type 0 where
  a_net_map : (nm : _) → FromService (App.net_map nm)
  a_probe_tick : FromService App.probe_tick
  a_datagram : (t : _) (s : Bytes) (from : _) → FromService (App.datagram t s from)
  a_broadcast_tick : (w : _) → FromService (App.broadcast_tick w)
  a_connection : (w : _) (c : _) → FromService (App.connection w c)
  a_search_query : (w : _) (from : _) → FromService (App.search_query w from)

-- One step of the program.
pub data Step {ops : Tables} (decode : Decoder) (send_blocks : Bool) (p : Program ops)
    : Program ops → Type 0 where
  serves : (e : AppEvent) → FromService e → Step decode send_blocks p (serve decode send_blocks e p)
  posts : (msg : Msg) → FromOutside msg → Step decode send_blocks p (post msg p)
  set_ready : Step decode send_blocks p (record p { log_ready = true })
  receives :
      (sorter : Sorter Peer) (time : Bytes)
      → Step decode send_blocks p (receive_next decode send_blocks sorter time p)

-- The programs that some steps lead to.
pub data Reaches {ops : Tables} (decode : Decoder) (send_blocks : Bool) (p : Program ops)
    : Program ops → Type 0 where
  at_start : Reaches decode send_blocks p p
  then_step :
      (q r : Program ops)
      → Reaches decode send_blocks p q
      → Step decode send_blocks q r
      → Reaches decode send_blocks p r
