-- ===== src/Probe.antt =====
-- cmd/wc3ts/probe.go: the command that asks hosts for games and prints what they answer. The
-- network, the resolver and the decoder are parameters, and so are the texts of their errors.
pub mod Hosts
pub mod Receive
pub mod Errors
pub mod Sent
use wc3ts.Prelude.{
  Bool, ◌||◌, List, [], ◌∷◌, ◌++◌, Option, none, some, Bytes, codes, bytes_discrete, holds,
  if◌then◌else◌,
}
use wc3ts.Text.{decimal, NumError, Parsed, number, failed}
use wc3ts.Net.{UdpAddr}
use wc3ts.W3gs.{GameVersion, SearchGame}
use wc3ts.Config.{parse_version}
use wc3ts.Probe.Hosts.{Out, line, Network, send_search_to_hosts}
use wc3ts.Probe.Receive.{
  Explained, Read, Received, finished, read_failed, deadline_failed, still_waiting,
  receive_responses,
}

-- What the command returns: nothing, or an error; or it still waits for responses.
pub data ProbeError : Type 0 where
  no_hosts socket_error : ProbeError
  invalid_version : NumError → ProbeError
  unknown_product : Bytes → ProbeError
  receive_error : Bytes → ProbeError

pub data ProbeResult : Type 0 where
  returned waiting : ProbeResult
  refused : ProbeError → ProbeResult

-- The constants `ProductTFT` and `ProductROC` of the protocol package.
pub record Products : Type 0 where
  pub product_tft : Bytes
  pub product_roc : Bytes

pub parse_product : Products → Bytes → Option Bytes
parse_product c s =
    if holds (bytes_discrete s (codes "W3XP")) || holds (bytes_discrete s (codes "TFT"))
    then some c.product_tft
    else if holds (bytes_discrete s (codes "WAR3")) || holds (bytes_discrete s (codes "ROC"))
    then some c.product_roc
    else none

-- What happens to the command: whether its socket can be opened, whether the deadline can be set,
-- and what is read until it.
pub record Session : Type 0 where
  pub network : Network
  pub socket : Bool
  pub deadline : Option Bytes
  pub reads : List Read

-- What the command has printed and sent, and its result.
pub record Probed : Type 0 where
  pub output : List Out
  pub result : ProbeResult

abbrev pub result_of : Received → ProbeResult
result_of (finished n) = returned
result_of (read_failed e) = refused (receive_error e)
result_of (deadline_failed e) = refused (receive_error e)
result_of (still_waiting n) = waiting

abbrev pub search_packet : GameVersion → SearchGame
search_packet version = record { game_version = version; host_counter = 1 }

abbrev probing_line : GameVersion → Bytes
probing_line v =
    codes "Probing with: Product=" ++ (v.product ++ (codes " Version=1." ++ decimal v.version))

-- `timeout` is the print of the duration
pub probe_hosts : Explained → Session → List Bytes → Bytes → GameVersion → Probed
unfolding send_search_to_hosts receive_responses
probe_hosts x s hosts timeout version =
    if s.socket
    then (let sent = send_search_to_hosts s.network hosts (search_packet version) in
        let (lines, received) = receive_responses x timeout s.deadline s.reads in
        record {
          output = line (probing_line version) ∷ line [] ∷ (sent ++ lines);
          result = result_of received;
        })
    else record { output = []; result = refused socket_error }

abbrev pub refuse : ProbeError → Probed
refuse e = record { output = []; result = refused e }

-- with the version and the product that were parsed
pub probe_with : Explained → Session → List Bytes → Bytes → Parsed → Bytes → Option Bytes → Probed
unfolding probe_hosts
probe_with x s hosts timeout (failed e) name product = refuse (invalid_version e)
probe_with x s hosts timeout (number v) name none = refuse (unknown_product name)
probe_with x s hosts timeout (number v) name (some p) =
    probe_hosts x s hosts timeout (record { product = p; version = v })

-- The arguments of the command: the hosts, and the flags.
pub record ProbeArgs : Type 0 where
  pub hosts : List Bytes
  pub timeout : Bytes
  pub version_str : Bytes
  pub product : Bytes

-- `Exec` of the command
pub probe_exec : Products → Explained → Session → ProbeArgs → Probed
unfolding probe_with parse_product
probe_exec c x s a = elim a.hosts [
  | [] ↦ refuse no_hosts
  | h ∷ hs ↦
      probe_with x s (h ∷ hs) a.timeout (parse_version a.version_str) a.product
        (parse_product c a.product)
]
