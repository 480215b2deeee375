-- ===== src/Program/Stuck.antt =====
-- cmd/wc3ts/run.go with tui/: the log lines of the callbacks.
use wc3ts.Prelude.{
  ◌≡◌, ◌≢◌, refl, sym, subst, ap, ◌∙◌, true, List, Option, none, ◌∷◌, some, Bytes, ℕ,
}
use wc3ts.W3gs.{Decoder}
use wc3ts.Tailscale.{Peer}
use wc3ts.Version.{Info}
use wc3ts.App.{App, System, services, run_exec}
use wc3ts.Sorting.{Sorter}
use wc3ts.Logging.{LogRecord, enabled, handle}
use wc3ts.Tui.{Tables, Model, Msg, Effect, KeyType, key_msg, view_mode_list, key_action}
use wc3ts.Tui.Update.{update}
use wc3ts.Program.Current.{Reaches-callbacks}
use wc3ts.Tui.Told.{Calls, OneCall, of_version, of_refresh, update-OneCall}
use wc3ts.Program.{
  Program, Incoming, message, receiving, blocked, serve, post, send_own, call_back, perform,
  log_line, log_handler, level_info, level_debug, version_record, refresh_record, take_message,
  receive_in, receive_next, Step, serves, posts, set_ready, receives, Reaches, at_start, then_step,
  start_program,
}

-- The loop is blocked, and the screen is what it was.
record Frozen {ops : Tables} (screen : Model ops) (p : Program ops) : Type 0 where
  pub stops : p.loop ≡ blocked
  pub same_screen : p.screen ≡ screen

-- Once the handler is ready, both levels are logged.
logs : (r : LogRecord) → (log_line true level_info r ≢ none) × (log_line true level_debug r ≢ none)
unfolding log_line enabled handle log_handler
logs r = (cc, cc)

module _ {ops : Tables} (decode : Decoder) where
  Step-Frozen :
      (screen : Model ops) (p q : Program ops)
      → Step decode true p q
      → Frozen screen p
      → Frozen screen q
  unfolding serve post receive_next
  Step-Frozen screen p q (serves e from) f = record { stops = f.stops; same_screen = f.same_screen }
  Step-Frozen screen p q (posts msg out) f = record { stops = f.stops; same_screen = f.same_screen }
  Step-Frozen screen p q set_ready f = record { stops = f.stops; same_screen = f.same_screen }
  Step-Frozen screen p q (receives sorter time) f =
      subst (λ l. Frozen screen (receive_in decode true sorter time l p)) (sym f.stops)
        (unfold receive_in in f)

  Reaches-Frozen :
      (screen : Model ops) (p q : Program ops)
      → Reaches decode true p q
      → Frozen screen p
      → Frozen screen q
  Reaches-Frozen screen p q at_start f = f
  Reaches-Frozen screen p q (then_step r _ before step) f =
      Step-Frozen screen r q step (Reaches-Frozen screen p r before f)

  send_own-Frozen :
      (o : Option Bytes) (p : Program ops) → o ≢ none → Frozen p.screen (send_own decode true o p)
  unfolding send_own
  send_own-Frozen none p ne = absurd (ne refl)
  send_own-Frozen (some s) p ne = record { stops = refl; same_screen = refl }

  perform-Frozen :
      (time : Bytes) (effects : List Effect) (p : Program ops)
      → OneCall effects
      → p.log_ready ≡ true
      → Frozen p.screen (perform decode true time effects p)
  unfolding perform call_back serve
  perform-Frozen time effects p (of_version v) ready = send_own-Frozen _ _ (λ e.
      (logs (version_record time v)).0
        (ap (λ b. log_line b level_info (version_record time v)) (sym ready) ∙ e))
  perform-Frozen time effects p of_refresh ready = send_own-Frozen _ _ (λ e.
      (logs (refresh_record time)).1
        (ap (λ b. log_line b level_debug (refresh_record time)) (sym ready) ∙ e))

  receive-Frozen :
      (sorter : Sorter Peer) (time : Bytes) (msg : Msg) (rest : List Incoming) (p : Program ops)
      → p.loop ≡ receiving
      → p.log_ready ≡ true
      → p.pending ≡ message msg ∷ rest
      → OneCall (update ops sorter msg p.screen).1
      → Frozen (update ops sorter msg p.screen).0 (receive_next decode true sorter time p)
  unfolding receive_next receive_in take_message
  receive-Frozen sorter time msg rest p opens ready comes one =
      let (screen, effects) = update ops sorter msg p.screen in
      let does : receive_next decode true sorter time p
          ≡ perform decode true time effects (record p { screen = screen; pending = rest }) =
        ap (λ l. receive_in decode true sorter time l p) opens
        ∙ ap (λ l. take_message decode true sorter time l p) comes in
      subst (Frozen screen) (sym does) (perform-Frozen time effects _ one ready)

  -- If a send from the event loop to itself blocks: in a program that has started, once the log
  -- handler is ready, when the loop receives one of the keys that call a callback (the two that
  -- change the version and `r`, and Enter, in the list view), the loop is blocked from then on, and
  -- whatever happens later, the screen stays as this key has left it.
  pub callback_key-freezes :
      (product : Bytes) (version : ℕ) (sys : System) (build : Info) (a : App) (sorter : Sorter Peer)
      (time : Bytes) (k : KeyType) (s : Bytes) (rest : List Incoming) (p q : Program ops)
      → run_exec product version sys ≡ services a
      → Reaches decode true (start_program build a) p
      → p.loop ≡ receiving
      → p.log_ready ≡ true
      → p.pending ≡ message (key_msg k s) ∷ rest
      → p.screen.view_mode ≡ view_mode_list
      → Calls (key_action s) k
      → Reaches decode true (receive_next decode true sorter time p) q
      → (q.loop ≡ blocked) × (q.screen ≡ (update ops sorter (key_msg k s) p.screen).0)
  callback_key-freezes product version sys build a sorter time k s rest p q starts before opens
        ready comes listed calls later =
      let (version_cb, refresh_cb) =
        Reaches-callbacks decode true product version sys build a p starts before in
      let one = update-OneCall ops sorter p.screen version_cb refresh_cb k s calls listed in
      let f =
        Reaches-Frozen _ _ q later
          (receive-Frozen sorter time (key_msg k s) rest p opens ready comes one) in
      (f.stops, f.same_screen)
