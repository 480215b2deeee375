-- ===== src/Tailscale.antt =====
-- tailscale/discovery.go: the peers and the own address, from the network maps that the Tailscale
-- daemon sends. The daemon's types are not part of the repository: a record holds what the code
-- reads of each.
pub mod Extract
pub mod Follow
use wc3ts.Prelude.{
  ℕ, ◌≡◌, Bool, true, false, not, ◌||◌, List, [], ◌∷◌, Option, none, some, Bytes, bytes_discrete,
  codes, holds, if◌then◌else◌,
}
use wc3ts.Text.{to_lower}
use wc3ts.Net.{Addr, invalid, is4}

pub record Peer : Type 0 where
  pub name : Bytes
  pub ip : Addr
  pub online : Bool
  pub os : Bytes

-- `tailcfg.NodeView`, as the code reads it
pub record NodeView : Type 0 where
  pub valid : Bool
  pub online : Option Bool
  pub tags : List Bytes
  -- `none` if the host information is not valid
  pub hostinfo_os : Option Bytes
  pub addresses : List Addr
  pub computed_name : Bytes

-- `netmap.NetworkMap`
pub record NetworkMap : Type 0 where
  pub self_node : NodeView
  pub peers : List NodeView

pub record Discovery : Type 0 where
  pub peers : List Peer
  pub self_ip : Addr
  -- whether a callback is installed
  pub on_change : Bool
  -- whether the watcher was opened
  pub watching : Bool

abbrev pub mullvad_exit_node_tag : Bytes
mullvad_exit_node_tag = codes "tag:mullvad-exit-node"

-- `slices.Contains`
unfoldable pub contains : Bytes → List Bytes → Bool
contains x [] = false
contains x (y ∷ ys) = holds (bytes_discrete y x) || contains x ys

-- the loop for the first IPv4 address
unfoldable pub first_ipv4 : List Addr → Option Addr
first_ipv4 [] = none
first_ipv4 (a ∷ addrs) = if is4 a then some a else first_ipv4 addrs

abbrev pub node_os : NodeView → Bytes
node_os p = elim p.hostinfo_os [ none ↦ [] | some os ↦ os ]

unfoldable pub node_online : NodeView → Bool
node_online p = elim p.online [ none ↦ false | some b ↦ b ]

-- iOS and Android
unfoldable pub is_mobile : Bytes → Bool
is_mobile os =
    let os_lower = to_lower os in
    holds (bytes_discrete os_lower (codes "ios"))
    || holds (bytes_discrete os_lower (codes "android"))

pub peer_at : NodeView → Option Addr → Option Peer
peer_at p none = none
peer_at p (some addr) =
    some (record { name = p.computed_name; ip = addr; online = node_online p; os = node_os p })

unfoldable pub extract_peer : NodeView → Option Peer
unfolding peer_at
extract_peer p =
    if not p.valid
    then none
    else if not (node_online p)
    then none
    else if contains mullvad_exit_node_tag p.tags
    then none
    else if is_mobile (node_os p)
    then none
    else peer_at p (first_ipv4 p.addresses)

unfoldable pub extract_peers : List NodeView → List Peer
extract_peers [] = []
extract_peers (p ∷ ps) = elim (extract_peer p) [
  | none ↦ extract_peers ps
  | some peer ↦ peer ∷ extract_peers ps
]

unfoldable pub extract_self_ip : NetworkMap → Discovery → Discovery
extract_self_ip nm d =
    if not nm.self_node.valid then d else elim (first_ipv4 nm.self_node.addresses) [
      | none ↦ d
      | some addr ↦ record d { self_ip = addr }
    ]

-- The new state, and the argument of the call of `onChange`, if there is one.
unfoldable pub update_from_net_map : NetworkMap → Discovery → Discovery × Option (List Peer)
update_from_net_map nm d =
    let d' = extract_self_ip nm d in
    let peers = extract_peers nm.peers in
    (record d' { peers = peers }, if d'.on_change then some peers else none)

unfoldable pub new_discovery : Bool → Discovery
new_discovery on_change = record {
  peers = [];
  self_ip = invalid;
  on_change = on_change;
  watching = false;
}

-- The loop of `Run` over the notifications that arrive before the watcher fails. A notification
-- may carry no network map. The second result has the calls of `onChange`, in order.
pub follow : List (Option NetworkMap) → Discovery → Discovery × List (Option (List Peer))
follow [] d = (d, [])
follow (none ∷ notifies) d = follow notifies d
follow (some nm ∷ notifies) d =
    let (d', call) = update_from_net_map nm d in
    let (d'', calls) = follow notifies d' in (d'', call ∷ calls)

-- `Run`; the subscription may fail
unfoldable pub run :
    Bool → List (Option NetworkMap) → Discovery → Discovery × List (Option (List Peer))
run subscribed notifies d =
    if subscribed then follow notifies (record d { watching = true }) else (d, [])

abbrev pub peers_of : Discovery → List Peer
peers_of d = d.peers

-- `SelfIP`
abbrev pub self_ip_of : Discovery → Addr
self_ip_of d = d.self_ip

-- `Close`: whether it closes the watcher, whose error it then returns
abbrev pub close : Discovery → Bool
close d = d.watching

-- The result of `FetchSelfIP`: an error of the daemon, or an address, which may be the zero one.
pub data Fetched : Type 0 where
  daemon_error : Fetched
  address : Addr → Fetched

-- `status` holds the addresses of the daemon's answer, if it answers
unfoldable pub fetch_self_ip : Option (List Addr) → Discovery → Discovery × Fetched
fetch_self_ip none d = (d, daemon_error)
fetch_self_ip (some addrs) d = elim (first_ipv4 addrs) [
  | none ↦ (d, address invalid)
  | some ip ↦ (record d { self_ip = ip }, address ip)
]
