-- ===== src/Tests/Screens.antt =====
-- The terminal interface.
use wc3ts.Prelude.{
  ℕ, ◌+◌, ◌-◌, ◌≡◌, refl, true, false, List, [], ◌∷◌, some, codes, bytes_discrete, ℕ_discrete,
}
use wc3ts.Net.{v4}
use wc3ts.Text.{to_lower}
use wc3ts.Tailscale.{Peer}
use wc3ts.Version.{Info}
use wc3ts.Sorting.{Sorter}
use wc3ts.Tui.Rows.{os_less, os_priority}
use wc3ts.Tui.{
  Tables, Model, Msg, key_msg, peers_msg, games_msg, log_msg, key_other, key_enter, new_model, act,
  key_action,
}
use wc3ts.Tui.Update.{run}
use wc3ts.Tui.Counts.{hosted}
use wc3ts.Tui.Orders.{ByOs, ByGames, Stands, update-Sorted}
use wc3ts.Tests.Data.{tft, remote_game, local_game, peer_addr}
use wc3ts.Tests.Sorts.{sorter, insertion_sort}

-- A table that is only its cursor.
abbrev pub tables : Tables
tables = record {
  Table = ℕ;
  new_table = λ c f h. 0;
  set_rows = λ r t. t;
  set_height = λ h t. t;
  focus = λ t. t;
  blur = λ t. t;
  move_up = λ n t. t - n;
  move_down = λ n t. t + n;
  cursor = λ t. some t;
}

abbrev pub mac : Peer
mac = record { name = codes "ada"; ip = v4 100 64 0 9; online = true; os = codes "macOS" }

abbrev pub win : Peer
win = record { name = codes "box"; ip = peer_addr; online = true; os = codes "windows" }

abbrev pub messages : List (Sorter Peer × Msg)
messages =
    (sorter, peers_msg (mac ∷ win ∷ []))
    ∷ (sorter, games_msg (remote_game ∷ local_game ∷ []))
    ∷ (sorter, log_msg (codes "ready"))
    ∷ (sorter, key_msg key_enter (codes "enter"))
    ∷ []

abbrev pub build : Info
build = record {
  version = [];
  commit = codes "0123456";
  modified = false;
  go_ver = codes "go1.25.5";
}

abbrev pub shown : Model tables
shown = new_model tables 40000 tft build true true

-- The peers and the games have come.
abbrev arrivals : List (Sorter Peer × Msg)
arrivals =
    (sorter, peers_msg (mac ∷ win ∷ [])) ∷ (sorter, games_msg (remote_game ∷ local_game ∷ [])) ∷ []

update-Sorted_example :
    let m = run tables arrivals shown in
    Stands tables sorter (peers_msg (mac ∷ win ∷ [])) shown (mac ∷ win ∷ []) ByOs
    × Stands tables sorter
        (key_msg key_other (codes "s"))
        m
        m.peers
        (ByGames (λ k. hosted k m.games))
unfolding run new_model
update-Sorted_example =
    update-Sorted tables sorter (mac ∷ win ∷ []) shown arrivals 40000 tft build true true refl

-- The peer with Windows comes first, and Enter selects it.
selected_runs : (run tables messages shown).selected_peer ≡ some win
unfolding run new_model os_less insertion_sort bytes_discrete ℕ_discrete key_action act os_priority
    to_lower
selected_runs = refl
