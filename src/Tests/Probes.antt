-- ===== src/Tests/Probes.antt =====
-- The probe command, and the exit codes.
use wc3ts.Prelude.{
  ◌≡◌, ◌↔◌, refl, true, false, List, [], ◌∷◌, none, some, Bytes, codes, if◌then◌else◌,
  bytes_discrete, ℕ_discrete, Bool, holds, ℕ,
}
use wc3ts.Net.{UdpAddr}
use wc3ts.Net.Ip.{to4}
use wc3ts.W3gs.{Decoder, game_info}
use wc3ts.Probe.{unknown_product, Products, Session, ProbeArgs, probe_exec, refused}
use wc3ts.Probe.Hosts.{first_to4, Network, lookup_error, addresses}
use wc3ts.Probe.Hosts.Sending.{to_each, address_of}
use wc3ts.Probe.Receive.{Explained, Read, datagram_read, timed_out, finished}
use wc3ts.Probe.Receive.Found.{games_before, ending}
use wc3ts.Probe.Errors.{Fails, refused-Fails}
use wc3ts.Probe.Sent.{search_for}
use wc3ts.Command.{World, run_selected, parse_error, main, quits}
use wc3ts.Command.Exits.{Errs, main-Errs}
use wc3ts.Tests.Data.{packet, lobby}
use wc3ts.Tests.Running.{system}

abbrev is_packet : Bytes → Bool
unfolding bytes_discrete ℕ_discrete
is_packet s = holds (bytes_discrete s packet)

-- One packet is a game, and nothing else is decoded.
packets : Decoder
packets s = if is_packet s then some (game_info (lobby 3)) else none

abbrev explained : Explained
explained = record { decode = packets; reason = λ s. codes "EOF" }

abbrev host : UdpAddr
host = record { ip = 100 ∷ 64 ∷ 0 ∷ 7 ∷ []; port = 6112 }

abbrev reads : List Read
reads =
    datagram_read packet host
    ∷ datagram_read (codes "hello") host
    ∷ datagram_read packet host
    ∷ timed_out
    ∷ []

-- A network that knows one name.
abbrev network : Network
network = record {
  parse_ip = λ s. none;
  lookup_ip = λ s.
      if holds (bytes_discrete s (codes "box"))
      then addresses (host.ip ∷ [])
      else lookup_error (codes "no such host");
  send_error = λ a. none;
}

abbrev session : Session
session = record { network = network; socket = true; deadline = none; reads = reads }

abbrev products : Products
products = record { product_tft = codes "W3XP"; product_roc = codes "WAR3" }

abbrev args : ProbeArgs
args = record {
  hosts = codes "box" ∷ codes "nobody" ∷ [];
  timeout = codes "5s";
  version_str = codes "1.26";
  product = codes "TFT";
}

-- Two of the three datagrams are games.
games_run : ending reads (games_before packets reads) ≡ finished 2
unfolding ending games_before packets is_packet bytes_discrete ℕ_discrete
games_run = refl

refused-Fails_example :
    (probe_exec products explained session (record args { product = codes "DRTL" })).result
      ≡ refused (unknown_product (codes "DRTL"))
    ↔ Fails products session
        (record args { product = codes "DRTL" })
        (unknown_product (codes "DRTL"))
refused-Fails_example =
    refused-Fails products explained session (record args { product = codes "DRTL" })
      (unknown_product (codes "DRTL"))

-- One of the two hosts has an address.
sends_one :
    (product : Bytes) (version : ℕ)
    → to_each network (search_for product version) (codes "box" ∷ codes "nobody" ∷ [])
      ≡ (host, search_for product version) ∷ []
unfolding to_each address_of bytes_discrete ℕ_discrete first_to4 to4
sends_one product version = refl

abbrev world : World
world = record {
  products = products;
  system = system;
  tui = quits;
  explained = explained;
  session = session;
  build = none;
}

main-Errs_example :
    (main world (run_selected (some (codes "1.x"))) ≡ some (true, 1)
      ↔ Errs world (run_selected (some (codes "1.x"))))
    × (main world (run_selected (some (codes "1.x"))) ≡ some (false, 2)
        ↔ run_selected (some (codes "1.x")) ≡ parse_error)
main-Errs_example = main-Errs world (run_selected (some (codes "1.x")))
