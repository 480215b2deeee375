-- ===== src/Tests/Broadcasts.antt =====
-- The broadcaster.
use wc3ts.Prelude.{
  ℕ, ◌≤◌, ◌<◌, ◌≡◌, ◌↔◌, refl, List, [], ◌∷◌, ◌++◌, none, some, Bytes, Mem, length, drop, arith,
  bytes_discrete, ℕ_discrete,
}
use wc3ts.Prelude.Assoc.{Assoc, get, put}
use wc3ts.Prelude.Walk.{straight}
use wc3ts.Net.{addr_text}
use wc3ts.Text.{decimal}
use wc3ts.Game.{key}
use wc3ts.Lan.{
  new_broadcaster, broadcast_games, on_games_changed, send_raw_game_info, send_decreate_game,
  send_refresh_game,
}
use wc3ts.Lan.Packets.{Readdressed, read16, read32, send_raw_game_info_lem, packet_fields}
use wc3ts.Lan.Broadcast.{listed, announcements, cancellations}
use wc3ts.Lan.Once.{times}
use wc3ts.Lan.History.{Event, changed, tick, run, told, tick-cancels}
use wc3ts.Tests.Data.{remote_game, local_game}

send_raw_game_info_lem_example :
    (length remote_game.raw_data < 4 → send_raw_game_info 40000 remote_game ≡ [])
    × (4 ≤ length remote_game.raw_data
        → (p : Bytes) × (send_raw_game_info 40000 remote_game ≡ p ∷ [])
          × Readdressed 40000 remote_game.raw_data p)
send_raw_game_info_lem_example = send_raw_game_info_lem 40000 remote_game (omega arith)

-- The port 40000 is 0x9C40.
send_raw_game_info_runs :
    send_raw_game_info 40000 remote_game ≡ (247 ∷ 48 ∷ 6 ∷ 0 ∷ 0x40 ∷ 0x9C ∷ []) ∷ []
unfolding send_raw_game_info
send_raw_game_info_runs = refl

packet_fields_example :
    (read16 (drop 2 (send_decreate_game 70000)) ≡ some (length (send_decreate_game 70000)))
    × (read32 (drop 4 (send_decreate_game 70000)) ≡ some 70000)
    × (read16 (drop 2 (send_refresh_game 70000 2 6)) ≡ some (length (send_refresh_game 70000 2 6)))
    × (read32 (drop 4 (send_refresh_game 70000 2 6)) ≡ some 70000)
    × (read32 (drop 8 (send_refresh_game 70000 2 6)) ≡ some 2)
    × (read32 (drop 12 (send_refresh_game 70000 2 6)) ≡ some 6)
packet_fields_example = packet_fields 70000 2 6 (omega arith) (omega arith) (omega arith)

abbrev events : List Event
events = changed (remote_game ∷ local_game ∷ []) ∷ tick straight ∷ changed (local_game ∷ []) ∷ []

tick-cancels_example :
    (gone : Assoc Bytes ℕ) × ((broadcast_games straight (run (new_broadcaster 40000) events)).1
      ≡ announcements 40000 (told 40000 events).current ++ cancellations gone)
    × ((k : Bytes) (h : ℕ)
        → Mem (k, h) gone ↔ (
            (listed k (told 40000 events).shown ≡ some h)
            × (listed k (told 40000 events).current ≡ none)))
    × ((k : Bytes) → times k gone ≤ 1)
tick-cancels_example = tick-cancels 40000 events straight

-- The remote game has left the list: its counter, 3, is cancelled, once.
tick_runs :
    (broadcast_games straight (
      on_games_changed
        (local_game ∷ [])
        (broadcast_games straight
          (on_games_changed (remote_game ∷ local_game ∷ []) (new_broadcaster 40000))).0)).1
    ≡ send_decreate_game 3 ∷ []
unfolding broadcast_games on_games_changed new_broadcaster get put key addr_text decimal
    bytes_discrete ℕ_discrete send_raw_game_info send_refresh_game
tick_runs = refl
