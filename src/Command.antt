-- ===== src/Command.antt =====
-- cmd/wc3ts/main.go, version.go and run.go: the commands, from what the package ffcli makes of the
-- arguments to the exit code.
pub mod Exits
use wc3ts.Prelude.{ℕ, Bool, true, false, List, [], ◌∷◌, ◌++◌, Option, none, some, Bytes, codes}
use wc3ts.Text.{NumError, Parsed, number, failed}
use wc3ts.Version.{BuildInfo, Info, get_info, info_text}
use wc3ts.Config.{parse_version}
use wc3ts.App.{
  App, System, Started, proxy_error, manager_error, broadcaster_error, services, run_exec,
}
use wc3ts.Probe.{
  ProbeError, ProbeResult, returned, waiting, refused, Products, Session, ProbeArgs, probe_exec,
}
use wc3ts.Probe.Receive.{Explained}

-- `newVersionCommand`: the lines that are printed
abbrev pub version_lines : Option BuildInfo → List Bytes
unfolding get_info info_text
version_lines bi =
    let v = get_info bi in
    (codes "wc3ts " ++ info_text v)
    ∷ (elim v.go_ver [ [] ↦ [] | c ∷ s ↦ (codes "  go: " ++ (c ∷ s)) ∷ [] ])

-- How the terminal interface ends: it still runs, it has quit, or it has failed.
pub data Ended : Type 0 where
  not_ended quits : Ended
  tui_error : Bytes → Ended

pub data RunError : Type 0 where
  bad_version : NumError → RunError
  bad_services : Started → RunError
  bad_tui : Bytes → RunError

pub data RunResult : Type 0 where
  runs : App → RunResult
  -- the context is cancelled, and the broadcaster closed
  cleaned_up : App → RunResult
  run_failed : RunError → RunResult

-- the end of `runExec`, once the services have started
pub after_tui : Ended → App → RunResult
after_tui not_ended a = runs a
after_tui quits a = cleaned_up a
after_tui (tui_error e) a = run_failed (bad_tui e)

pub after_init : Ended → Started → RunResult
unfolding after_tui
after_init end (services a) = after_tui end a
after_init end proxy_error = run_failed (bad_services proxy_error)
after_init end manager_error = run_failed (bad_services manager_error)
after_init end broadcaster_error = run_failed (bad_services broadcaster_error)

pub with_parsed : Bytes → System → Ended → Parsed → RunResult
unfolding after_init
with_parsed product_tft sys end (failed e) = run_failed (bad_version e)
with_parsed product_tft sys end (number v) = after_init end (run_exec product_tft v sys)

-- `Exec` of `newRunCommand`
pub run_command : Bytes → Bytes → System → Ended → RunResult
unfolding with_parsed
run_command product_tft version_str sys end =
    with_parsed product_tft sys end (parse_version version_str)

-- What ffcli makes of the arguments: the command that is selected, or the root if there is none; or
-- the flag package finds the request for help, or a flag that it cannot parse. The run command comes
-- with its flag, if it is given.
pub data Selected : Type 0 where
  run_selected : Option Bytes → Selected
  root version_selected help_requested parse_error : Selected
  probe_selected : ProbeArgs → Selected

-- All that the commands find.
pub record World : Type 0 where
  pub products : Products
  pub system : System
  pub tui : Ended
  pub explained : Explained
  pub session : Session
  pub build : Option BuildInfo

-- How `ParseAndRun` ends: it has not, without an error, with `flag.ErrHelp`, or with another error;
-- or it does not return, since the flag package has ended the process with an exit code.
pub data Outcome : Type 0 where
  not_yet no_error help some_error : Outcome
  exited : ℕ → Outcome

pub of_run : RunResult → Outcome
of_run (runs a) = not_yet
of_run (cleaned_up a) = no_error
of_run (run_failed e) = some_error

pub of_probe : ProbeResult → Outcome
of_probe returned = no_error
of_probe waiting = not_yet
of_probe (refused e) = some_error

-- the default of the flag `version`
abbrev pub default_version_str : Bytes
default_version_str = codes "26"

abbrev pub flag_or_default : Option Bytes → Bytes
flag_or_default none = default_version_str
flag_or_default (some s) = s

pub run_in : World → Option Bytes → Outcome
unfolding of_run
run_in w flag = of_run (run_command w.products.product_tft (flag_or_default flag) w.system w.tui)

-- The exit codes of a flag set with `flag.ExitOnError`, which all commands have: for the request for
-- help, and for arguments that cannot be parsed. The flag package prints the usage.
abbrev help_code : ℕ
help_code = 0

abbrev pub bad_flag_code : ℕ
bad_flag_code = 2

-- The root calls the run command, whose flag is not parsed then.
pub parse_and_run : World → Selected → Outcome
unfolding run_in of_probe
parse_and_run w root = run_in w none
parse_and_run w (run_selected flag) = run_in w flag
parse_and_run w (probe_selected args) =
    of_probe (probe_exec w.products w.explained w.session args).result
parse_and_run w version_selected = no_error
parse_and_run w help_requested = exited help_code
parse_and_run w parse_error = exited bad_flag_code

-- `main`: whether it prints an error, and the exit code; `none` if it has not ended
pub exit_of : Outcome → Option (Bool × ℕ)
exit_of not_yet = none
exit_of no_error = some (false, 0)
exit_of help = some (false, 0)
exit_of some_error = some (true, 1)
exit_of (exited code) = some (false, code)

pub main : World → Selected → Option (Bool × ℕ)
unfolding exit_of
main w s = exit_of (parse_and_run w s)
