-- ===== src/Tests/Views.antt =====
-- What the terminal interface shows.
use wc3ts.Prelude.{
  ℕ, suc, ◌*◌, ◌+◌, ◌-◌, arith, ◌∷◌, ◌≤◌, ◌<◌, ◌≡◌, refl, [], ◌++◌, codes, true, ◌∙◌, length,
  bytes_discrete, All,
}
use wc3ts.Text.{decimal, to_lower}
use wc3ts.Net.{addr_text}
use wc3ts.Game.{Game}
use wc3ts.Game.Key.{IsV4, is_v4}
use wc3ts.Tui.Rows.{count_at, os_less, os_priority}
use wc3ts.Tui.{new_model, act, key_action, window_size_msg}
use wc3ts.Tui.Update.{run}
use wc3ts.Tui.View.{view, status_bar, status_text, online_peers}
use wc3ts.Tui.View.Style.{Renderer}
use wc3ts.Tui.View.Detail.{
  written, hosted_games, format_duration, whole_hours, rounded_hours, leading,
}
use wc3ts.Tui.View.Shown.{Shows, view-run}
use wc3ts.Tui.View.Ago.{TimeUnit, nanoseconds, ago, Told, format_duration_lem}
use wc3ts.Tui.View.Totals.{last_port, last_peers, last_games, status_bar-run}
use wc3ts.Tui.View.Hosts.{length-hosted_games-run}
use wc3ts.Tests.Sorts.{sorter, insertion_sort}
use wc3ts.Tests.Data.{tft}
use wc3ts.Tests.Screens.{tables, messages, build, shown, win}

-- Styles that change nothing.
abbrev renderer : Renderer tables
renderer = record { render = λ s t. t; join_horizontal = written; table_view = λ t. [] }

view-run_example :
    Shows renderer 5 6
      (run tables ((sorter, window_size_msg 80 40) ∷ messages) shown)
      (view renderer 5 6 (run tables ((sorter, window_size_msg 80 40) ∷ messages) shown))
view-run_example =
    view-run renderer 5 6 ((sorter, window_size_msg 80 40) ∷ messages) 40000 tft build true true

format_duration_lem_example :
    (u : TimeUnit) × (n : ℕ) × (format_duration 150_000_000_000 ≡ decimal n ++ ago u)
    × Told u n
    × (n * nanoseconds u ≤ 150_000_000_000 + 0)
    × (150_000_000_000 < suc n * nanoseconds u)
format_duration_lem_example = format_duration_lem 150_000_000_000 (omega arith)

-- A nanosecond before 4096 hours and before 4097 hours.
exact_runs : format_duration (4096 * 3_600_000_000_000 - 1) ≡ codes "4095 hours ago"
unfolding format_duration decimal whole_hours rounded_hours leading
exact_runs = refl

ahead_runs : format_duration (4097 * 3_600_000_000_000 - 1) ≡ codes "4097 hours ago"
unfolding format_duration decimal whole_hours rounded_hours leading
ahead_runs = refl

IsV4-games : All (λ (g : Game). IsV4 g.peer_ip) (run tables messages shown).games
unfolding run new_model act key_action bytes_discrete insertion_sort os_less os_priority to_lower
IsV4-games = (is_v4 100 64 0 7, (is_v4 127 0 0 1, tt))

length-hosted_games-run_example :
    length (hosted_games win.ip (run tables messages shown).games)
    ≡ count_at (addr_text win.ip) (run tables messages shown).peer_games
length-hosted_games-run_example =
    length-hosted_games-run tables messages 40000 tft build true true win (is_v4 100 64 0 7)
      IsV4-games

-- The line of this run.
status_runs :
    status_bar renderer (run tables messages shown)
    ≡ codes "UDP 6112 | TCP Proxy: 40000 | Peers: 2 online | Games: 1 local, 1 remote"
unfolding last_port last_peers last_games online_peers status_text decimal
status_runs = status_bar-run tables renderer messages 40000 tft build true true ∙ refl
