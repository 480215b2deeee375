-- ===== src/Tests/Programs.antt =====
-- The services and the terminal interface together.
use wc3ts.Prelude.{
  ◌≡◌, ◌⊎◌, refl, true, false, List, [], ◌∷◌, Bytes, Perm, arith, some, codes, bytes_discrete,
  ℕ_discrete,
}
use wc3ts.Prelude.Walk.{straight}
use wc3ts.Config.{default_config}
use wc3ts.Proxy.{new_tcp_proxy}
use wc3ts.Peer.{new_manager, receive, dispatch}
use wc3ts.Lan.{open_broadcaster}
use wc3ts.App
use wc3ts.App.{
  App, AppEvent, services, services_on, app_step, run_exec, init_services, with_version,
}
use wc3ts.App.Consistent.{started}
use wc3ts.App.Setup.{SetUp, init_services-SetUp}
use wc3ts.Tui.{key_msg, key_other, key_action, new_model}
use wc3ts.Tui.Update.{update}
use wc3ts.Tui.Told.{next}
use wc3ts.Program.{
  Program, blocked, serve, post, receive_next, start_program, at_start, then_step, serves, posts,
  set_ready, receives, a_datagram, a_key,
}
use wc3ts.Program.Current.{Current, Reaches-Current}
use wc3ts.Program.Catches.{rounds, cost, Halted, receive_all, catches_up}
use wc3ts.Prelude.Assoc.{values}
use wc3ts.Sorting.{Sorter}
use wc3ts.Tailscale.{Peer}
use wc3ts.Net.{addr_from_slice}
use wc3ts.Game.Registry.{add, new_registry}
use wc3ts.Program.Stuck.{callback_key-freezes}
use wc3ts.Tests.Data.{packet}
use wc3ts.Tests.Running.{decoder, system, sender}
use wc3ts.Tests.Screens.{tables, build}
use wc3ts.Tests.Sorts.{sorter}

init_services-SetUp_example :
    SetUp
      (default_config (codes "W3XP"))
      system
      (init_services (default_config (codes "W3XP")) system)
init_services-SetUp_example = init_services-SetUp (default_config (codes "W3XP")) system

abbrev first : App
first = started (with_version 27 (default_config (codes "W3XP"))) system 40000

first_starts : run_exec (codes "W3XP") 27 system ≡ services first
unfolding run_exec new_tcp_proxy new_manager open_broadcaster
first_starts = refl

abbrev start : Program tables
start = start_program build first

abbrev arrival : AppEvent
arrival = App.datagram (record { walk = straight; now = 30; later = 31 }) packet (some sender)

-- A game is found, and the interface is told.
abbrev shown_game : Program tables
shown_game = receive_next decoder true sorter (codes "12:00:00") (serve decoder true arrival start)

Reaches-Current_example : Current shown_game
Reaches-Current_example =
    Reaches-Current decoder true (codes "W3XP") 27 system build first shown_game first_starts (
      then_step _ _ (then_step _ _ at_start (serves arrival (a_datagram _ _ _)))
        (receives sorter (codes "12:00:00")))

-- The log handler is ready, and the key for the next version is pressed.
abbrev pressed : Program tables
pressed = post (key_msg key_other (codes "]")) (record start { log_ready = true })

abbrev frozen : Program tables
frozen = receive_next decoder true sorter (codes "12:00:00") pressed

callback_key-freezes_example :
    (frozen.loop ≡ blocked)
    × (frozen.screen ≡ (update tables sorter (key_msg key_other (codes "]")) pressed.screen).0)
unfolding start_program post new_model key_action bytes_discrete ℕ_discrete
callback_key-freezes_example =
    callback_key-freezes decoder (codes "W3XP") 27 system build first sorter (codes "12:00:00")
      key_other (codes "]") [] pressed frozen first_starts
      (then_step _ _ (then_step _ _ at_start set_ready) (posts _ (a_key key_other (codes "]"))))
      refl refl refl refl next at_start

-- A game is found, and the key for a refresh is pressed.
abbrev busy : Program tables
busy =
    post (key_msg key_other (codes "r"))
      (serve decoder false arrival (record start { log_ready = true }))

abbrev three_turns : List (Sorter Peer × Bytes)
three_turns =
    (sorter, codes "12:00:00") ∷ (sorter, codes "12:00:01") ∷ (sorter, codes "12:00:02") ∷ []

abbrev caught : Program tables
caught = receive_all decoder false three_turns busy

busy_rounds : rounds busy.pending ≡ 3
unfolding rounds cost start_program post serve app_step services_on receive dispatch addr_from_slice
    add new_registry
busy_rounds = refl

catches_up_example :
    Halted false caught
    ⊎ ((caught.pending ≡ [])
        × Perm caught.screen.games (values caught.app.registry.games)
        × Perm caught.screen.peers caught.app.discovery.peers)
unfolding serve start_program post services_on
catches_up_example =
    catches_up decoder false (codes "W3XP") 27 system build first busy three_turns first_starts
      (then_step _ _
        (then_step _ _ (then_step _ _ at_start set_ready) (serves arrival (a_datagram _ _ _)))
        (posts _ (a_key key_other (codes "r"))))
      refl (omega (arith, busy_rounds))
