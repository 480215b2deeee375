-- ===== src/Probe/Hosts.antt =====
-- cmd/wc3ts/probe.go: hosts are resolved, and asked for games.
pub mod Sending
use wc3ts.Prelude.{ℕ, List, [], ◌∷◌, ◌++◌, Option, none, some, Bytes, codes}
use wc3ts.Net.{UdpAddr}
use wc3ts.Net.Ip.{to4, udp_text}
use wc3ts.W3gs.{SearchGame}

-- What the command does, in order: a line that it prints, or a packet that it hands to the socket.
pub data Out : Type 0 where
  line : Bytes → Out
  search_sent : UdpAddr → SearchGame → Out

-- `Resolver.LookupIPAddr`: an error, or addresses
pub data Lookup : Type 0 where
  lookup_error : Bytes → Lookup
  addresses : List Bytes → Lookup

-- `net.ParseIP`, the name service, and the text of the error of a send, if it fails.
pub record Network : Type 0 where
  pub parse_ip : Bytes → Option Bytes
  pub lookup_ip : Bytes → Lookup
  pub send_error : UdpAddr → Option Bytes

abbrev pub probe_port : ℕ
probe_port = 6112

-- the loop for the first IPv4 address
unfoldable pub first_to4 : List Bytes → Option Bytes
first_to4 [] = none
first_to4 (ip ∷ ips) = elim (to4 ip) [ some ip4 ↦ some ip4 | none ↦ first_to4 ips ]

abbrev no_ipv4 : Bytes → List Out
no_ipv4 host = line (codes "No IPv4 address for " ++ host) ∷ []

abbrev at_port : Bytes → UdpAddr
at_port ip = record { ip = ip; port = probe_port }

-- what is printed, and the address, if there is one
pub resolve_name : Bytes → Lookup → List Out × Option UdpAddr
unfolding first_to4
resolve_name host (lookup_error e) =
    (line (codes "Cannot resolve " ++ (host ++ (codes ": " ++ e))) ∷ [], none)
resolve_name host (addresses ips) = elim (first_to4 ips) [
  | none ↦ (no_ipv4 host, none)
  | some ip ↦ ([], some (at_port ip))
]

pub resolve_host : Network → Bytes → List Out × Option UdpAddr
unfolding resolve_name
resolve_host net host = elim (net.parse_ip host) [
  | some ip ↦ ([], some (at_port ip))
  | none ↦ resolve_name host (net.lookup_ip host)
]

abbrev error_lines : Option Bytes → List Out
error_lines none = []
error_lines (some e) = line (codes "  Error: " ++ e) ∷ []

pub send_to : Network → SearchGame → Option UdpAddr → List Out
send_to net pkt none = []
send_to net pkt (some addr) =
    line (codes "Sending SearchGame to " ++ (udp_text addr ++ codes "..."))
    ∷ search_sent addr pkt
    ∷ error_lines (net.send_error addr)

unfoldable pub send_search_to_hosts : Network → List Bytes → SearchGame → List Out
unfolding send_to
send_search_to_hosts net [] pkt = []
send_search_to_hosts net (host ∷ hosts) pkt =
    let (lines, addr) = resolve_host net host in
    lines ++ (send_to net pkt addr ++ send_search_to_hosts net hosts pkt)
