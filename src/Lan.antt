-- ===== src/Lan.antt =====
-- lan/broadcaster.go: remote games are announced to the local network, with the port of the proxy
-- in place of the game's, and games that are gone are cancelled. Every packet goes to one address,
-- so a method returns the packets that it hands to `WriteTo`, in order; a failed write is only
-- logged. `Run` calls `broadcast_games` at each tick, and both methods hold the lock.
pub mod Packets
pub mod Broadcast
pub mod Once
pub mod History
pub mod Listed
pub mod Announced
use wc3ts.Prelude.{
  ℕ, zero, suc, ◌+◌, ◌-◌, ◌/◌, ◌%◌, ◌^◌, ◌≡◌, refl, Bool, true, false, Option, none, some, List, [],
  ◌∷◌, ◌++◌, Bytes, bytes_discrete, codes, length, set, ltb, if◌then◌else◌,
}
use wc3ts.Prelude.Assoc.{Assoc, get, put}
use wc3ts.Prelude.Walk.{Walk}
use wc3ts.Game.{Game, source_local, source_remote, is_remote, key}

abbrev pub min_packet_size : ℕ
min_packet_size = 4

abbrev pub port_field_size : ℕ
port_field_size = 2

-- `byte(x >> shift)`
abbrev pub byte_at : ℕ → ℕ → ℕ
byte_at x shift = x / 2 ^ shift % 256

pub record Broadcaster : Type 0 where
  pub games : List Game
  -- the host counter of each key of the last broadcast
  pub previous_game_keys : Assoc Bytes ℕ
  pub proxy_port : ℕ

unfoldable pub new_broadcaster : ℕ → Broadcaster
new_broadcaster port = record { games = []; previous_game_keys = []; proxy_port = port }

-- `NewBroadcaster`; its socket may not open
unfoldable pub open_broadcaster : Bool → ℕ → Option Broadcaster
unfolding new_broadcaster
open_broadcaster socket port = if socket then some (new_broadcaster port) else none

unfoldable pub on_games_changed : List Game → Broadcaster → Broadcaster
on_games_changed games b = record b { games = games }

pub with_port : ℕ → Bytes → Bytes
with_port port data_bytes =
    let port_idx = length data_bytes - port_field_size in
    set (set data_bytes port_idx (byte_at port 0)) (port_idx + 1) (byte_at port 8)

unfoldable pub send_raw_game_info : ℕ → Game → List Bytes
unfolding with_port
send_raw_game_info port g =
    if ltb (length g.raw_data) min_packet_size then [] else with_port port g.raw_data ∷ []

unfoldable pub send_refresh_game : ℕ → ℕ → ℕ → Bytes
send_refresh_game host_counter slots_used slots_available =
    0xF7
    ∷ 0x32
    ∷ 0x10
    ∷ 0x00
    ∷ byte_at host_counter 0
    ∷ byte_at host_counter 8
    ∷ byte_at host_counter 16
    ∷ byte_at host_counter 24
    ∷ byte_at slots_used 0
    ∷ byte_at slots_used 8
    ∷ byte_at slots_used 16
    ∷ byte_at slots_used 24
    ∷ byte_at slots_available 0
    ∷ byte_at slots_available 8
    ∷ byte_at slots_available 16
    ∷ byte_at slots_available 24
    ∷ []

pub send_decreate_game : ℕ → Bytes
send_decreate_game host_counter =
    0xF7
    ∷ 0x33
    ∷ 0x08
    ∷ 0x00
    ∷ byte_at host_counter 0
    ∷ byte_at host_counter 8
    ∷ byte_at host_counter 16
    ∷ byte_at host_counter 24
    ∷ []

-- The first loop of `broadcastGames`, with `currentKeys` and the packets sent so far.
pub announce : ℕ → List Game → Assoc Bytes ℕ → List Bytes → Assoc Bytes ℕ × List Bytes
announce port [] current sent = (current, sent)
announce port (g ∷ gs) current sent = elim (is_remote g.source) [
  | false ↦ announce port gs current sent
  | true ↦ announce port gs (put bytes_discrete (key g) g.info.host_counter current) (
      sent
      ++ (send_raw_game_info port g
          ++ (send_refresh_game g.info.host_counter g.info.slots_used g.info.slots_available ∷ [])))
]

-- The second loop, over the previous keys.
pub cancel : Assoc Bytes ℕ → Assoc Bytes ℕ → List Bytes → List Bytes
cancel current [] sent = sent
cancel current ((k, host_counter) ∷ rest) sent =
    cancel current rest (elim (get bytes_discrete k current) [
      | some _ ↦ sent
      | none ↦ sent ++ send_decreate_game host_counter ∷ []
    ])

unfoldable pub broadcast_games : Walk (Bytes × ℕ) → Broadcaster → Broadcaster × List Bytes
unfolding announce cancel
broadcast_games w b =
    let (current, sent) = announce b.proxy_port b.games [] [] in
    (record b { previous_game_keys = current }, cancel current (w.order b.previous_game_keys) sent)
