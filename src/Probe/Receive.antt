-- ===== src/Probe/Receive.antt =====
-- cmd/wc3ts/probe.go: responses are read until the deadline, and games among them are printed and
-- counted.
pub mod Found
pub mod Silent
use wc3ts.Prelude.{
  ℕ, ◌+◌, Bool, true, false, ◌||◌, not, List, [], ◌∷◌, ◌++◌, Option, none, some, Bytes, codes,
  length, take, ltb, ◌==◌, if◌then◌else◌,
}
use wc3ts.Text.{decimal}
use wc3ts.Net.{UdpAddr}
use wc3ts.Net.Ip.{udp_text, hex_bytes, upper_hex}
use wc3ts.W3gs.{GameInfo, Packet, game_info, Decoder}
use wc3ts.Probe.Hosts.{Out, line}

-- A decoder, with the text of its error for bytes that it does not decode.
pub record Explained : Type 0 where
  pub decode : Decoder
  pub reason : Bytes → Bytes

-- `parseGameInfo`
pub data GameResult : Type 0 where
  packet_too_short not_game_info : GameResult
  not_decoded : GameResult
  decoded : GameInfo → GameResult

pub game_of : Option Packet → GameResult
game_of none = not_decoded
game_of (some (game_info gi)) = decoded gi
game_of (some _) = not_game_info

pub parse_game_info : Decoder → Bytes → GameResult
unfolding game_of
parse_game_info decode s = if ltb (length s) 4 then packet_too_short else game_of (decode s)

abbrev ratio : ℕ → ℕ → Bytes
ratio a b = decimal a ++ (b'/' ∷ decimal b)

abbrev print_game_info : GameInfo → Bytes → List Out
print_game_info gi from =
    line []
    ∷ line (codes "=== Game Found ===")
    ∷ line (codes "  From:     " ++ from)
    ∷ line (codes "  Name:     " ++ gi.game_name)
    ∷ line (codes "  Map:      " ++ gi.map_path)
    ∷ line (codes "  Players:  " ++ ratio gi.slots_used gi.slots_total)
    ∷ line (codes "  Port:     " ++ decimal gi.game_port)
    ∷ line (
        codes "  Version:  "
        ++ (gi.game_version.product ++ (codes " 1." ++ decimal gi.game_version.version)))
    ∷ line (codes "  HostCtr:  " ++ decimal gi.host_counter)
    ∷ line []
    ∷ []

abbrev not_parsed : Bytes → Bytes → List Out
not_parsed reason s =
    line (codes "  Failed to parse: " ++ reason) ∷ line (codes "  Raw: " ++ hex_bytes s) ∷ []

-- What is printed for a response, and 1 if it is a game.
abbrev pub Response : Type 0
Response = List Out × ℕ

pub print_result : Explained → Bytes → Bytes → GameResult → Response
print_result x s from packet_too_short = (not_parsed (codes "packet too short") s, 0)
print_result x s from not_game_info = (not_parsed (codes "not a GameInfo packet") s, 0)
print_result x s from not_decoded = (not_parsed (x.reason s) s, 0)
print_result x s from (decoded gi) = (print_game_info gi from, 1)

abbrev of_bytes : Bytes → Bytes → Bytes
of_bytes s from =
    codes " from " ++ (from ++ (codes " (" ++ (decimal (length s) ++ codes " bytes)")))

-- a response with the header of the protocol, by its packet id
pub handle_id : Explained → ℕ → Bytes → Bytes → Response
unfolding print_result parse_game_info
handle_id x packet_id s from =
    let received =
      line (codes "Received W3GS packet 0x" ++ (upper_hex packet_id ++ of_bytes s from)) in
    let (lines, n) = print_result x s from (parse_game_info x.decode s) in
    if packet_id == 0x30 then (received ∷ lines, n) else (received ∷ [], 0)

abbrev no_packet : Bytes → Bytes → Response
no_packet s from = (line (codes "Received non-W3GS data" ++ of_bytes s from) ∷ [], 0)

pub handle_packet : Explained → Bytes → Bytes → Response
unfolding handle_id
handle_packet x (magic ∷ packet_id ∷ s) from =
    if ltb (length (magic ∷ packet_id ∷ s)) 4 || not (magic == 0xF7)
    then no_packet (magic ∷ packet_id ∷ s) from
    else handle_id x packet_id (magic ∷ packet_id ∷ s) from
handle_packet x s from = no_packet s from

-- What `ReadFromUDP` returns: a datagram, the timeout, or another error with its text.
pub data Read : Type 0 where
  datagram_read : Bytes → UdpAddr → Read
  timed_out : Read
  read_error : Bytes → Read

abbrev pub buffer_size : ℕ
buffer_size = 4096

-- How `receiveResponses` ends, with the number of games; it waits if no read has failed yet.
pub data Received : Type 0 where
  finished still_waiting : ℕ → Received
  read_failed deadline_failed : Bytes → Received

abbrev pub print_summary : ℕ → List Out
print_summary n =
    if n == 0
    then line (codes "No games found.") ∷ []
    else line (codes "Found " ++ (decimal n ++ codes " game(s).")) ∷ []

-- the loop, with `gamesFound`
unfoldable pub receive_reads : Explained → List Read → ℕ → List Out × Received
unfolding handle_packet
receive_reads x [] found = ([], still_waiting found)
receive_reads x (timed_out ∷ rest) found = (print_summary found, finished found)
receive_reads x (read_error e ∷ rest) found = ([], read_failed e)
receive_reads x (datagram_read s from ∷ rest) found =
    let (lines, n) = handle_packet x (take buffer_size s) (udp_text from) in
    let (more, end) = receive_reads x rest (found + n) in (lines ++ more, end)

abbrev head_lines : Bytes → List Out
head_lines timeout =
    line []
    ∷ line (codes "Waiting for responses (timeout: " ++ (timeout ++ codes ")..."))
    ∷ line []
    ∷ []

-- `timeout` is the print of the duration; `deadline` has the error of `SetReadDeadline`, if any
unfoldable pub receive_responses :
    Explained → Bytes → Option Bytes → List Read → List Out × Received
unfolding receive_reads
receive_responses x timeout (some e) reads = (head_lines timeout, deadline_failed e)
receive_responses x timeout none reads =
    let (lines, end) = receive_reads x reads 0 in (head_lines timeout ++ lines, end)
