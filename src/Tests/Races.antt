-- ===== src/Tests/Races.antt =====
-- The manager's loops while the interface sorts.
use wc3ts.Prelude.{◌≡◌, ◌≢◌, refl, true, [], ◌∷◌, All, Mem, bytes_discrete, length, arith}
use wc3ts.Text.{to_lower}
use wc3ts.Peer.{Manager, find_peer_name}
use wc3ts.Tui.Rows.{os_less, os_priority}
use wc3ts.Program.Race.{
  Names, Memory, find_racing, copy_racing, sorted_after, sorted_after-perm, racing-Names,
}
use wc3ts.Program.Race.Hidden.{sort_hides}
use wc3ts.Tests.Data.{tft}
use wc3ts.Tests.Screens.{mac, win}
use wc3ts.Tests.Sorts.{sorter}

abbrev two_peers : Manager
two_peers = record { version = tft; peers = mac ∷ win ∷ [] }

abbrev memory : Memory
memory = sorted_after sorter 1 two_peers.peers

racing-Names_example :
    Names (find_racing memory (length two_peers.peers) win.ip) win.ip two_peers.peers
    × All (λ p. Mem p two_peers.peers) (copy_racing memory (length two_peers.peers))
    × (find_racing (λ _. two_peers.peers) (length two_peers.peers) win.ip
        ≡ find_peer_name two_peers win.ip)
racing-Names_example =
    racing-Names two_peers memory win.ip (sorted_after-perm sorter 1 two_peers.peers)

apart : mac.ip ≢ win.ip
apart e = cc

win_first : os_less win mac ≡ true
unfolding os_less os_priority bytes_discrete to_lower
win_first = refl

sort_hides_example :
    (find_peer_name two_peers win.ip ≡ win.name)
    × (find_racing memory 2 win.ip ≡ [])
    × All (λ p. Mem p (mac ∷ [])) (copy_racing memory 2)
    × (length (copy_racing memory 2) ≡ 2)
sort_hides_example =
    sort_hides sorter two_peers (mac ∷ []) [] win 1 refl ((apart, win_first), tt) (omega arith)
      (omega arith)
