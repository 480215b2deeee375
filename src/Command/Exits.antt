-- ===== src/Command/Exits.antt =====
-- cmd/wc3ts/main.go and run.go: the exit code of each command.
use wc3ts.Prelude.{ℕ, ◌≡◌, ◌≢◌, ◌↔◌, refl, ap, ◌∙◌, true, false, Option, none, some, Bytes}
use wc3ts.Text.{NumError, Parsed, number, failed}
use wc3ts.Config.{parse_version}
use wc3ts.App.{App, Started, proxy_error, manager_error, broadcaster_error, services, run_exec}
use wc3ts.Probe.{ProbeError, ProbeResult, returned, waiting, refused, probe_exec, ProbeArgs}
use wc3ts.Probe.Errors.{Fails, refused-Fails}
use wc3ts.Command.{
  World, Selected, root, run_selected, probe_selected, version_selected, help_requested,
  parse_error, RunResult, runs, cleaned_up, run_failed, exited, Ended, not_ended, quits, tui_error,
  after_tui, after_init, with_parsed, run_command, Outcome, not_yet, no_error, help, some_error,
  of_run, of_probe, run_in, parse_and_run, exit_of, main, flag_or_default,
}

module _ (w : World) where
  -- What `run_exec` makes with this version.
  abbrev set_up : ℕ → Started
  set_up v = run_exec w.products.product_tft v w.system

  -- The run command fails.
  pub data RunFails (flag : Option Bytes) : Type 0 where
    wrong_version : (e : NumError) → parse_version (flag_or_default flag) ≡ failed e → RunFails flag
    wrong_services :
        (v : ℕ)
        → parse_version (flag_or_default flag) ≡ number v
        → ((a : App) → set_up v ≢ services a)
        → RunFails flag
    wrong_tui :
        (v : ℕ) (a : App) (e : Bytes)
        → parse_version (flag_or_default flag) ≡ number v
        → set_up v ≡ services a
        → w.tui ≡ tui_error e
        → RunFails flag

  -- When the program ends with an error.
  pub data Errs : Selected → Type 0 where
    run_errs : (flag : Option Bytes) → RunFails flag → Errs (run_selected flag)
    root_errs : RunFails none → Errs root
    probe_errs :
        (args : ProbeArgs) (e : ProbeError)
        → Fails w.products w.session args e
        → Errs (probe_selected args)

  exit_of-error : (o : Outcome) → (exit_of o ≡ some (true, 1)) ↔ (o ≡ some_error)
  unfolding exit_of
  exit_of-error not_yet = (cc, cc)
  exit_of-error no_error = (cc, cc)
  exit_of-error help = (cc, cc)
  exit_of-error some_error = (λ e. refl, λ e. refl)
  exit_of-error (exited n) = (cc, cc)

  exit_of-bad_flag : (o : Outcome) → (exit_of o ≡ some (false, 2)) ↔ (o ≡ exited 2)
  unfolding exit_of
  exit_of-bad_flag not_yet = (cc, cc)
  exit_of-bad_flag no_error = (cc, cc)
  exit_of-bad_flag help = (cc, cc)
  exit_of-bad_flag some_error = (cc, cc)
  exit_of-bad_flag (exited n) = (cc, cc)

  -- A command that runs returns to `main`.
  of_run-returns : (r : RunResult) → of_run r ≢ exited 2
  unfolding of_run
  of_run-returns (runs a) e = cc
  of_run-returns (cleaned_up a) e = cc
  of_run-returns (run_failed n) e = cc

  of_probe-returns : (r : ProbeResult) → of_probe r ≢ exited 2
  unfolding of_probe
  of_probe-returns returned e = cc
  of_probe-returns waiting e = cc
  of_probe-returns (refused n) e = cc

  exited-parse_error : (s : Selected) → parse_and_run w s ≡ exited 2 ↔ s ≡ parse_error
  unfolding parse_and_run run_in
  exited-parse_error root = (λ e. absurd (of_run-returns _ e), cc)
  exited-parse_error (run_selected flag) = (λ e. absurd (of_run-returns _ e), cc)
  exited-parse_error (probe_selected args) = (λ e. absurd (of_probe-returns _ e), cc)
  exited-parse_error version_selected = (cc, cc)
  exited-parse_error help_requested = (cc, cc)
  exited-parse_error parse_error = (λ e. refl, λ e. refl)

  of_probe-error : (r : ProbeResult) → of_probe r ≡ some_error → (e : ProbeError) × (r ≡ refused e)
  unfolding of_probe
  of_probe-error returned h = cc
  of_probe-error waiting h = cc
  of_probe-error (refused e) h = (e, refl)

  started-fails :
      (flag : Option Bytes) (v : ℕ) (st : Started) (end : Ended)
      → parse_version (flag_or_default flag) ≡ number v
      → set_up v ≡ st
      → w.tui ≡ end
      → of_run (after_init end st) ≡ some_error
      → RunFails flag
  unfolding of_run after_init after_tui
  started-fails flag v proxy_error end pv es et h = wrong_services v pv (λ a e. cc (es, e))
  started-fails flag v manager_error end pv es et h = wrong_services v pv (λ a e. cc (es, e))
  started-fails flag v broadcaster_error end pv es et h = wrong_services v pv (λ a e. cc (es, e))
  started-fails flag v (services a) not_ended pv es et h = cc
  started-fails flag v (services a) quits pv es et h = cc
  started-fails flag v (services a) (tui_error e) pv es et h = wrong_tui v a e pv es et

  not_started :
      (st : Started) → ((a : App) → st ≢ services a) → of_run (after_init w.tui st) ≡ some_error
  unfolding of_run after_init
  not_started proxy_error h = refl
  not_started manager_error h = refl
  not_started broadcaster_error h = refl
  not_started (services a) h = absurd (h a refl)

  RunFails-run_in : (flag : Option Bytes) → RunFails flag → run_in w flag ≡ some_error
  unfolding run_in run_command with_parsed of_run after_init after_tui
  RunFails-run_in flag (wrong_version e ep) = rw ep refl
  RunFails-run_in flag (wrong_services v ep ne) = rw ep (not_started (set_up v) ne)
  RunFails-run_in flag (wrong_tui v a e ep es et) = rw (ep, es, et) refl

  run_in-RunFails : (flag : Option Bytes) → run_in w flag ≡ some_error → RunFails flag
  unfolding run_in run_command with_parsed
  run_in-RunFails flag = fails (parse_version (flag_or_default flag)) refl
    where
      fails :
          (p : Parsed)
          → parse_version (flag_or_default flag) ≡ p
          → of_run (with_parsed w.products.product_tft w.system w.tui p) ≡ some_error
          → RunFails flag
      fails (failed e) ep h = wrong_version e ep
      fails (number v) ep h = started-fails flag v (set_up v) w.tui ep refl refl h

  Errs-parse_and_run : (s : Selected) → Errs s → parse_and_run w s ≡ some_error
  unfolding parse_and_run
  Errs-parse_and_run s (run_errs flag f) = RunFails-run_in flag f
  Errs-parse_and_run s (root_errs f) = RunFails-run_in none f
  Errs-parse_and_run s (probe_errs args e f) =
      ap of_probe ((refused-Fails w.products w.explained w.session args e).1 f)
      ∙ unfold of_probe in refl

  parse_and_run-Errs : (s : Selected) → parse_and_run w s ≡ some_error → Errs s
  unfolding parse_and_run
  parse_and_run-Errs root h = root_errs (run_in-RunFails none h)
  parse_and_run-Errs (run_selected flag) h = run_errs flag (run_in-RunFails flag h)
  parse_and_run-Errs (probe_selected args) h =
      let (e, r) = of_probe-error (probe_exec w.products w.explained w.session args).result h in
      probe_errs args e ((refused-Fails w.products w.explained w.session args e).0 r)
  parse_and_run-Errs version_selected h = cc
  parse_and_run-Errs help_requested h = cc
  parse_and_run-Errs parse_error h = cc

  -- `main` prints an error and exits with code 1 exactly when the probe command fails; or the run
  -- command, which runs with the version 26 too if no command is given, has a version that is no
  -- number of 32 bits, cannot set up its services, or has an interface that fails. The exit code is 2,
  -- without an error from `main`, exactly when the flag package cannot parse the arguments.
  pub main-Errs :
      (s : Selected)
      → (main w s ≡ some (true, 1) ↔ Errs s) × (main w s ≡ some (false, 2) ↔ s ≡ parse_error)
  unfolding main
  main-Errs s =
      let error = exit_of-error (parse_and_run w s) in
      let bad_flag = exit_of-bad_flag (parse_and_run w s) in
      let arguments = exited-parse_error s in
      (
        (λ h. parse_and_run-Errs s (error.0 h), λ e. error.1 (Errs-parse_and_run s e)),
        (λ h. arguments.0 (bad_flag.0 h), λ e. bad_flag.1 (arguments.1 e)),
      )
