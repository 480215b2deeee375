-- ===== src/Tui/View/Window.antt =====
-- tui/view.go and tui/update.go: the lines of the log that are shown.
use wc3ts.Prelude.{ℕ, ◌-◌, ◌≤◌, ◌≡◌, Bool, ap, ◌∙◌, List, Bytes, length, drop, length-drop, arith}
use wc3ts.Tailscale.{Peer}
use wc3ts.Version.{Info}
use wc3ts.Sorting.{Sorter}
use wc3ts.W3gs.{GameVersion}
use wc3ts.Tui.{Tables, Msg, new_model}
use wc3ts.Tui.Update.{run}
use wc3ts.Tui.Logs.{last_lines, log_lines, run-last_lines, drop-drop}
use wc3ts.Tui.View.{display_lines, shown_logs}

display_lines_bounds : (h : ℕ) → (1 ≤ display_lines h) × (display_lines h ≤ 10)
unfolding display_lines
display_lines_bounds h = (ground arith, ground arith)

shown_logs-drop : (h : ℕ) (l : List Bytes) → shown_logs h l ≡ drop (length l - display_lines h) l
unfolding shown_logs
shown_logs-drop h l = ap (λ i. drop i l) (ground arith)

-- The last lines of the last ten.
shown-last_lines :
    (h : ℕ) (all : List Bytes)
    → shown_logs h (last_lines all) ≡ drop (length all - display_lines h) all
shown-last_lines h all =
    let (least, most) = display_lines_bounds h in
    let size : length (last_lines all) ≡ length all - (length all - 10) =
      length-drop (length all - 10) all in
    shown_logs-drop h (last_lines all)
    ∙ drop-drop (length (last_lines all) - display_lines h) (length all - 10)
        (length all - display_lines h) all (omega (arith, size, least, most))

-- After any messages, the list view shows the last lines that were logged, in order, as many as the
-- height of the log, and ten if it has no height or more than ten; or all of them, if they are fewer.
shown_logs-run :
    (ops : Tables) (msgs : List (Sorter Peer × Msg)) (port : ℕ) (version : GameVersion)
    (build : Info) (v r : Bool)
    → let m = run ops msgs (new_model ops port version build v r) in
      let all = log_lines msgs in
      (shown_logs m.log_height m.logs ≡ drop (length all - display_lines m.log_height) all)
      × (1 ≤ display_lines m.log_height)
      × (display_lines m.log_height ≤ 10)
shown_logs-run ops msgs port version build v r =
    let m = run ops msgs (new_model ops port version build v r) in
    let (least, most) = display_lines_bounds m.log_height in
    (
      ap (shown_logs m.log_height) (run-last_lines ops msgs port version build v r)
          ∙ shown-last_lines m.log_height (log_lines msgs),
      least,
      most,
    )
