-- ===== src/Probe/Receive/Silent.antt =====
-- cmd/wc3ts/probe.go: nothing is sent while responses are read, and reading ends.
use wc3ts.Prelude.{
  ℕ, ◌+◌, ◌≡◌, refl, ap, ◌∙◌, Bool, true, false, List, [], ◌∷◌, ◌++◌, Option, none, some, Bytes,
  length, ltb, ◌==◌, ◌||◌, not, Bool-cases, inl, inr, take, if◌then◌else◌,
}
use wc3ts.Net.Ip.{udp_text}
use wc3ts.Probe.Hosts.{Out}
use wc3ts.Probe.Hosts.Sending.{searches, searches-append}
use wc3ts.Probe.Receive.{
  Explained, Response, GameResult, packet_too_short, not_game_info, not_decoded, decoded,
  parse_game_info, print_result, handle_id, handle_packet, Read, datagram_read, timed_out,
  read_error, buffer_size, Received, still_waiting, receive_reads, receive_responses,
}

abbrev Silent : List Out → Type 0
Silent out = searches out ≡ []

print_result-Silent :
    (x : Explained) (s from : Bytes) (r : GameResult) → Silent (print_result x s from r).0
unfolding print_result searches
print_result-Silent x s from packet_too_short = refl
print_result-Silent x s from not_game_info = refl
print_result-Silent x s from not_decoded = refl
print_result-Silent x s from (decoded gi) = refl

if-Silent : (b : Bool) (p q : Response) → Silent p.0 → Silent q.0 → Silent (if b then p else q).0
if-Silent true p q hp hq = hp
if-Silent false p q hp hq = hq

handle_id-Silent : (x : Explained) (i : ℕ) (s from : Bytes) → Silent (handle_id x i s from).0
unfolding handle_id searches
handle_id-Silent x i s from =
    if-Silent (i == 0x30) _ _ (print_result-Silent x s from (parse_game_info x.decode s)) refl

handle_packet-Silent : (x : Explained) (s from : Bytes) → Silent (handle_packet x s from).0
unfolding handle_packet searches
handle_packet-Silent x [] from = refl
handle_packet-Silent x (a ∷ []) from = refl
handle_packet-Silent x (a ∷ b ∷ s) from =
    if-Silent (ltb (length (a ∷ b ∷ s)) 4 || not (a == 0xF7)) _ _ refl
      (handle_id-Silent x b (a ∷ b ∷ s) from)

receive_reads-Silent :
    (x : Explained) (reads : List Read) (found : ℕ) → Silent (receive_reads x reads found).0
unfolding receive_reads searches
receive_reads-Silent x [] found = refl
receive_reads-Silent x (timed_out ∷ rest) found = elim (Bool-cases (found == 0)) [
  | inl e ↦ rw e refl
  | inr e ↦ rw e refl
]
receive_reads-Silent x (read_error e ∷ rest) found = refl
receive_reads-Silent x (datagram_read s from ∷ rest) found =
    let (lines, n) = handle_packet x (take buffer_size s) (udp_text from) in
    searches-append lines _
    ∙ ap (λ l. l ++ searches (receive_reads x rest (found + n)).0)
        (handle_packet-Silent x (take buffer_size s) (udp_text from))
    ∙ receive_reads-Silent x rest (found + n)

pub receive_responses-Silent :
    (x : Explained) (timeout : Bytes) (d : Option Bytes) (reads : List Read)
    → searches (receive_responses x timeout d reads).0 ≡ []
unfolding receive_responses searches
receive_responses-Silent x timeout (some e) reads = refl
receive_responses-Silent x timeout none reads = receive_reads-Silent x reads 0

-- A read fails.
unfoldable pub Stops : List Read → Type 0
Stops [] = ⊥
Stops (datagram_read s from ∷ rest) = Stops rest
Stops (timed_out ∷ rest) = Unit
Stops (read_error e ∷ rest) = Unit

unfoldable pub Over : Received → Type 0
Over (still_waiting n) = ⊥
Over _ = Unit

receive_reads-Over :
    (x : Explained) (reads : List Read) (found : ℕ)
    → Stops reads
    → Over (receive_reads x reads found).1
unfolding receive_reads Stops Over
receive_reads-Over x [] found h = h
receive_reads-Over x (timed_out ∷ rest) found h = tt
receive_reads-Over x (read_error e ∷ rest) found h = tt
receive_reads-Over x (datagram_read s from ∷ rest) found h = receive_reads-Over x rest _ h

pub receive_responses-Over :
    (x : Explained) (timeout : Bytes) (d : Option Bytes) (reads : List Read)
    → Stops reads
    → Over (receive_responses x timeout d reads).1
unfolding receive_responses Over
receive_responses-Over x timeout (some e) reads h = tt
receive_responses-Over x timeout none reads h = receive_reads-Over x reads 0 h
