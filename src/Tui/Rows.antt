-- ===== src/Tui/Rows.antt =====
-- tui/update.go: what the tables show, the counts of games, and the two comparisons of peers.
use wc3ts.Prelude.{
  ℕ, ◌+◌, Bool, List, [], ◌∷◌, ◌++◌, none, some, Bytes, codes, bytes_discrete, holds, map, ◌==◌,
  if◌then◌else◌,
}
use wc3ts.Prelude.Assoc.{Assoc, get, put}
use wc3ts.Text.{decimal, to_lower, upper}
use wc3ts.Net.{addr_text}
use wc3ts.Game.{Game, source_text, is_remote}
use wc3ts.Tailscale.{Peer}
use wc3ts.Sorting.{rank_less}

abbrev pub Row : Type 0
Row = List Bytes

-- A key that is missing in a map of numbers counts as 0.
unfoldable pub count_at : Bytes → Assoc Bytes ℕ → ℕ
count_at k m = elim (get bytes_discrete k m) [ none ↦ 0 | some n ↦ n ]

abbrev os_priority_windows : ℕ
os_priority_windows = 0

abbrev os_priority_mac : ℕ
os_priority_mac = 1

abbrev os_priority_other : ℕ
os_priority_other = 2

unfoldable pub os_priority : Bytes → ℕ
os_priority os =
    let s = to_lower os in
    if holds (bytes_discrete s (codes "windows"))
    then os_priority_windows
    else if holds (bytes_discrete s (codes "macos"))
    then os_priority_mac
    else if holds (bytes_discrete s (codes "darwin"))
    then os_priority_mac
    else os_priority_other

-- the comparison of `sortPeersByOS`
unfoldable pub os_less : Peer → Peer → Bool
unfolding rank_less
os_less a b = rank_less (os_priority a.os) (os_priority b.os) a.name b.name

-- the comparison of `sortPeersByGames`
unfoldable pub games_less : Assoc Bytes ℕ → Peer → Peer → Bool
unfolding rank_less
games_less m a b =
    rank_less (count_at (addr_text b.ip) m) (count_at (addr_text a.ip) m) a.name b.name

-- the second loop of `updatePeerGameCounts`
unfoldable pub count_games : List Game → Assoc Bytes ℕ → Assoc Bytes ℕ
unfolding count_at
count_games [] m = m
count_games (g ∷ gs) m =
    let ip = addr_text g.peer_ip in
    count_games gs (if is_remote g.source then put bytes_discrete ip (count_at ip m + 1) m else m)

-- `updatePeerGameCounts`, which clears the map first
unfoldable pub game_counts : List Game → Assoc Bytes ℕ
game_counts gs = count_games gs []

abbrev pub os_display : Bytes → Bytes
os_display [] = codes "-"
os_display (c ∷ s) = upper c ∷ s

abbrev games_display : ℕ → Bytes
games_display n = if n == 0 then codes "-" else decimal n

pub peer_row : Assoc Bytes ℕ → Peer → Row
unfolding count_at
peer_row m p =
    p.name
    ∷ addr_text p.ip
    ∷ os_display p.os
    ∷ (if p.online then codes "Online" else codes "Offline")
    ∷ games_display (count_at (addr_text p.ip) m)
    ∷ []

abbrev pub peer_rows : Assoc Bytes ℕ → List Peer → List Row
unfolding peer_row
peer_rows m peers = map (peer_row m) peers

pub game_row : Game → Row
game_row g =
    g.info.game_name
    ∷ (if is_remote g.source then g.peer_name else codes "Local")
    ∷ (decimal g.info.slots_used ++ (b'/' ∷ decimal g.info.slots_total))
    ∷ source_text g.source
    ∷ []

abbrev pub game_rows : List Game → List Row
unfolding game_row
game_rows games = map game_row games
