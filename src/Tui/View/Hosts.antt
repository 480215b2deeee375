-- ===== src/Tui/View/Hosts.antt =====
-- tui/view.go and tui/update.go: the games of a peer, in its details and in the table of the peers.
use wc3ts.Prelude.{
  ℕ, ◌≡◌, refl, sym, ap, ◌∙◌, Bool, List, [], ◌∷◌, bytes_discrete, length, All, arith, holds,
}
use wc3ts.Net.{Addr, addr_text, addr_discrete}
use wc3ts.Net.Text.{text4-injective}
use wc3ts.W3gs.{GameVersion}
use wc3ts.Game.{Game}
use wc3ts.Game.Key.{IsV4, is_v4}
use wc3ts.Tailscale.{Peer}
use wc3ts.Version.{Info}
use wc3ts.Sorting.{Sorter}
use wc3ts.Tui.{Tables, Msg, new_model}
use wc3ts.Tui.Rows.{count_at}
use wc3ts.Tui.Update.{run}
use wc3ts.Tui.Counts.{hosted, count_at-run}
use wc3ts.Tui.View.Detail.{hosted_games}

addr_text-injective : (i j : Addr) → IsV4 i → IsV4 j → addr_text i ≡ addr_text j → i ≡ j
unfolding addr_text
addr_text-injective i j (is_v4 a b c d) (is_v4 a' b' c' d') e =
    let (ea, eb, ec, ed) = text4-injective a b c d a' b' c' d' e in cc

same_address :
    (i j : Addr)
    → IsV4 i
    → IsV4 j
    → (dt : Dec (addr_text i ≡ addr_text j)) (da : Dec (i ≡ j)) → holds da ≡ holds dt
same_address i j vi vj (yes e) (yes e') = refl
same_address i j vi vj (yes e) (no n) = absurd (n (addr_text-injective i j vi vj e))
same_address i j vi vj (no n) (yes e') = absurd (n (ap addr_text e'))
same_address i j vi vj (no n) (no n') = refl

length-hosted_games :
    (ip : Addr) (gs : List Game)
    → IsV4 ip
    → All (λ (g : Game). IsV4 g.peer_ip) gs
    → length (hosted_games ip gs) ≡ hosted (addr_text ip) gs
unfolding hosted_games hosted
length-hosted_games ip [] v vs = refl
length-hosted_games ip (g ∷ gs) v (vg, vs) =
    let same =
      same_address g.peer_ip ip vg v (bytes_discrete (addr_text g.peer_ip) (addr_text ip))
        (addr_discrete g.peer_ip ip) in
    ground (arith, same, length-hosted_games ip gs v vs)

-- After any messages, if the addresses are IPv4 addresses, the details of a peer list as many games
-- as are counted for it in the table of the peers: comparing addresses and comparing their texts are
-- the same.
pub length-hosted_games-run :
    (ops : Tables) (msgs : List (Sorter Peer × Msg)) (port : ℕ) (version : GameVersion)
    (build : Info) (v r : Bool) (p : Peer)
    → IsV4 p.ip
    → All (λ (g : Game). IsV4 g.peer_ip) (run ops msgs (new_model ops port version build v r)).games
    → let m = run ops msgs (new_model ops port version build v r) in
      length (hosted_games p.ip m.games) ≡ count_at (addr_text p.ip) m.peer_games
length-hosted_games-run ops msgs port version build v r p vp vs =
    length-hosted_games p.ip _ vp vs
    ∙ sym (count_at-run ops msgs port version build v r (addr_text p.ip))
