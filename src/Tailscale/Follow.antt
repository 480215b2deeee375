-- ===== src/Tailscale/Follow.antt =====
-- tailscale/discovery.go: the loop of `Run`.
use wc3ts.Prelude.{
  ◌≡◌, refl, ap, ◌∙◌, Bool, List, [], ◌∷◌, Option, none, some, map, arith, if◌then◌else◌,
}
use wc3ts.Net.{Addr}
use wc3ts.Tailscale.{
  Peer, NetworkMap, Discovery, first_ipv4, extract_peers, extract_self_ip, update_from_net_map,
  follow,
}

-- The network maps among the notifications.
pub maps : List (Option NetworkMap) → List NetworkMap
maps [] = []
maps (none ∷ ns) = maps ns
maps (some nm ∷ ns) = nm ∷ maps ns

-- The peers of the last network map, or else the given ones.
pub last_peers : List Peer → List NetworkMap → List Peer
last_peers ps [] = ps
last_peers ps (nm ∷ ms) = last_peers (extract_peers nm.peers) ms

-- The own address that a network map shows, if it shows one.
pub shown_self : NetworkMap → Option Addr
shown_self nm = if nm.self_node.valid then first_ipv4 nm.self_node.addresses else none

-- The last own address that was shown, or else the given one.
pub last_self : Addr → List NetworkMap → Addr
last_self a [] = a
last_self a (nm ∷ ms) = last_self (elim (shown_self nm) [ none ↦ a | some b ↦ b ]) ms

-- The calls of `onChange` for some network maps, where the Boolean says whether it is installed.
abbrev pub calls : Bool → List NetworkMap → List (Option (List Peer))
calls installed = map (λ nm. if installed then some (extract_peers nm.peers) else none)

update_fields :
    (nm : NetworkMap) (d : Discovery)
    → ((update_from_net_map nm d).0.peers ≡ extract_peers nm.peers)
      × ((update_from_net_map nm d).0.self_ip
          ≡ elim (shown_self nm) [ none ↦ d.self_ip | some b ↦ b ])
      × ((update_from_net_map nm d).0.on_change ≡ d.on_change)
      × ((update_from_net_map nm d).1
          ≡ (if d.on_change then some (extract_peers nm.peers) else none))
unfolding update_from_net_map extract_self_ip shown_self
update_fields nm d = ground arith

-- After any notifications, the peers are those of the last network map and the own address is the
-- last that a network map showed; each network map has made one call of `onChange` with its peers,
-- in order, if a callback is installed.
pub follow_lem :
    (ns : List (Option NetworkMap)) (d : Discovery)
    → ((follow ns d).0.peers ≡ last_peers d.peers (maps ns))
      × ((follow ns d).0.self_ip ≡ last_self d.self_ip (maps ns))
      × ((follow ns d).1 ≡ calls d.on_change (maps ns))
unfolding follow maps last_peers last_self
follow_lem [] d = (refl, refl, refl)
follow_lem (none ∷ ns) d = follow_lem ns d
follow_lem (some nm ∷ ns) d =
    let (peers, self, on_change, call) = update_fields nm d in
    let (later_peers, later_self, later_calls) = follow_lem ns (update_from_net_map nm d).0 in
    (
      later_peers ∙ ap (λ p. last_peers p (maps ns)) peers,
      later_self ∙ ap (λ a. last_self a (maps ns)) self,
      λ i. call i ∷ (later_calls ∙ ap (λ b. calls b (maps ns)) on_change) i,
    )
