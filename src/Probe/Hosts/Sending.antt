-- ===== src/Probe/Hosts/Sending.antt =====
-- cmd/wc3ts/probe.go: the packets that are sent to the hosts.
use wc3ts.Prelude.{
  ◌≡◌, refl, ap, ◌∙◌, List, [], ◌∷◌, ◌++◌, Option, none, some, Bytes, arith, Option-cases, inl, inr,
}
use wc3ts.Net.{UdpAddr}
use wc3ts.W3gs.{SearchGame}
use wc3ts.Probe.Hosts.{
  Out, line, search_sent, Network, lookup_error, addresses, first_to4, resolve_name, resolve_host,
  send_to, send_search_to_hosts,
}

-- The packets that are sent.
unfoldable pub searches : List Out → List (UdpAddr × SearchGame)
searches [] = []
searches (line s ∷ rest) = searches rest
searches (search_sent to pkt ∷ rest) = (to, pkt) ∷ searches rest

-- The address that a host is asked at: the one that it spells, or the first IPv4 address of its name.
unfoldable pub address_of : Network → Bytes → Option UdpAddr
address_of net host = elim (net.parse_ip host) [
  | some ip ↦ some (record { ip = ip; port = 6112 })
  | none ↦ elim (net.lookup_ip host) [
    | lookup_error e ↦ none
    | addresses ips ↦ elim (first_to4 ips) [
      | none ↦ none
      | some ip ↦ some (record { ip = ip; port = 6112 })
    ]
  ]
]

-- The packet in front of `rest`, if there is an address.
abbrev to_one :
    SearchGame → Option UdpAddr → List (UdpAddr × SearchGame) → List (UdpAddr × SearchGame)
to_one pkt none rest = rest
to_one pkt (some to) rest = (to, pkt) ∷ rest

-- The packet, for each host that has an address.
unfoldable pub to_each : Network → SearchGame → List Bytes → List (UdpAddr × SearchGame)
unfolding address_of
to_each net pkt [] = []
to_each net pkt (h ∷ hs) = to_one pkt (address_of net h) (to_each net pkt hs)

pub searches-append : (l m : List Out) → searches (l ++ m) ≡ searches l ++ searches m
unfolding searches
searches-append [] m = refl
searches-append (line s ∷ l) m = searches-append l m
searches-append (search_sent to pkt ∷ l) m = ap (◌∷◌ (to, pkt)) (searches-append l m)

-- Resolving sends nothing, and finds the address.
resolve_host_lem :
    (net : Network) (host : Bytes)
    → (searches (resolve_host net host).0 ≡ []) × ((resolve_host net host).1 ≡ address_of net host)
unfolding resolve_host resolve_name searches address_of
resolve_host_lem net host = ground arith

send_to-searches :
    (net : Network) (pkt : SearchGame) (o : Option UdpAddr) (rest : List Out)
    → searches (send_to net pkt o ++ rest) ≡ to_one pkt o (searches rest)
unfolding send_to searches
send_to-searches net pkt none rest = refl
send_to-searches net pkt (some to) rest = elim (Option-cases (net.send_error to)) [
  | inl e ↦ rw e refl
  | inr (t, e) ↦ rw e refl
]

pub send_search_to_hosts-searches :
    (net : Network) (hosts : List Bytes) (pkt : SearchGame)
    → searches (send_search_to_hosts net hosts pkt) ≡ to_each net pkt hosts
unfolding send_search_to_hosts to_each searches
send_search_to_hosts-searches net [] pkt = refl
send_search_to_hosts-searches net (h ∷ hs) pkt =
    let (quiet, found) = resolve_host_lem net h in
    let rest = send_search_to_hosts net hs pkt in
    searches-append (resolve_host net h).0 _
    ∙ ap (λ l. l ++ searches (send_to net pkt (resolve_host net h).1 ++ rest)) quiet
    ∙ send_to-searches net pkt (resolve_host net h).1 rest
    ∙ ap (λ o. to_one pkt o (searches rest)) found
    ∙ ap (to_one pkt (address_of net h)) (send_search_to_hosts-searches net hs pkt)
