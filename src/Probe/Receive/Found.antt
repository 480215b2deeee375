-- ===== src/Probe/Receive/Found.antt =====
-- cmd/wc3ts/probe.go: how the receiving of responses ends, and the games that are counted.
use wc3ts.Prelude.{ℕ, ◌+◌, ◌≤◌, ◌≡◌, List, [], ◌∷◌, ◌++◌, Option, some, Bytes, length, take}
use wc3ts.W3gs.{GameInfo, Packet, game_info, Decoder}
use wc3ts.Probe.Hosts.{Out}
use wc3ts.Probe.Receive.{
  Read, datagram_read, timed_out, read_error, buffer_size, Received, finished, still_waiting,
  read_failed, print_summary,
}

-- The decoder takes nothing for a game but packets with the header of a GameInfo packet.
unfoldable pub HeaderSound : Decoder → Type 0
HeaderSound decode =
    (s : Bytes) (gi : GameInfo)
    → decode s ≡ some (game_info gi)
    → (4 ≤ length s) × (t : Bytes) × (s ≡ 0xF7 ∷ 0x30 ∷ t)

abbrev pub is_game : Option Packet → ℕ
is_game (some (game_info gi)) = 1
is_game _ = 0

-- The number of games among the datagrams that are read before a read fails.
unfoldable pub games_before : Decoder → List Read → ℕ
games_before decode (datagram_read s from ∷ rest) =
    is_game (decode (take buffer_size s)) + games_before decode rest
games_before decode _ = 0

-- How a list of reads ends: by the timeout, by another error, or not yet.
unfoldable pub ending : List Read → ℕ → Received
ending [] n = still_waiting n
ending (timed_out ∷ rest) n = finished n
ending (read_error e ∷ rest) n = read_failed e
ending (datagram_read s from ∷ rest) n = ending rest n

-- What is printed at the end.
abbrev pub Summed : List Out → Received → Type 0
Summed out (finished n) = (before : List Out) × (out ≡ before ++ print_summary n)
Summed out _ = Unit
