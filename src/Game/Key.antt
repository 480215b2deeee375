-- ===== src/Game/Key.antt =====
-- game/game.go: `Key`.
use wc3ts.Prelude.{
  All-mono, All-append, ℕ, ◌≤◌, ◌≡◌, ◌≢◌, refl, sym, ◌∙◌, ◌∷◌, [], ◌++◌, arith, Bytes, codes, All,
}
use wc3ts.Text.{decimal}
use wc3ts.Text.Decimal.{decimal-IsDigit}
use wc3ts.Text.Split.{split_at_sep}
use wc3ts.Net.{Addr, v4, addr_text, text4}
use wc3ts.Net.Text.{text4-Lacks, text4-injective}
use wc3ts.Game.{Game, Source, source_local, source_remote, key}

-- The host is an IPv4 address.
pub data IsV4 : Addr → Type 0 where
  is_v4 : (a b c d : ℕ) → IsV4 (v4 a b c d)

-- Where a game is hosted, as its key spells it.
abbrev pub host : Source → Addr → Bytes
host source_local ip = codes "local"
host source_remote ip = addr_text ip

low : (n : ℕ) → All (λ c. c ≤ b'9') (decimal n)
low n = All-mono (λ c h. omega arith) (decimal n) (decimal-IsDigit n)

text4_low : (a b c d : ℕ) → All (λ c. c ≤ b'9') (text4 a b c d)
unfolding text4
text4_low a b c d =
    let join = All-append (λ x. x ≤ b'9') in
    join (decimal a) _ (low a) (
      omega arith,
      join (decimal b) _ (low b) (omega arith, join (decimal c) _ (low c) (omega arith, low d)),
    )

-- No IPv4 address prints as `local`.
text4-ne-local : (a b c d : ℕ) → text4 a b c d ≢ codes "local"
text4-ne-local a b c d e = no_letter (text4 a b c d) (text4_low a b c d) e
  where
    no_letter : (s : Bytes) → All (λ c. c ≤ b'9') s → s ≢ codes "local"
    no_letter [] h e = cc
    no_letter (c ∷ s) (h, _) e = ground arith

host-injective :
    (s t : Source) (i j : Addr)
    → IsV4 i
    → IsV4 j
    → host s i ≡ host t j
    → (s ≡ t) × (s ≡ source_remote → i ≡ j)
unfolding addr_text
host-injective source_local source_local i j hi hj e = (refl, λ p. cc)
host-injective source_local source_remote i j hi (is_v4 a b c d) e =
    absurd (text4-ne-local a b c d (sym e))
host-injective source_remote source_local i j (is_v4 a b c d) hj e =
    absurd (text4-ne-local a b c d e)
host-injective source_remote source_remote i j (is_v4 a b c d) (is_v4 a' b' c' d') e =
    let (p, q, r, s) = text4-injective a b c d a' b' c' d' e in (refl, λ _. cc)

host-Lacks : (s : Source) (i : Addr) → IsV4 i → All (λ c. c ≢ b':') (host s i)
unfolding addr_text
host-Lacks source_local i h = omega arith
host-Lacks source_remote i (is_v4 a b c d) = text4-Lacks a b c d

key-host : (g : Game) → key g ≡ host g.source g.peer_ip ++ (b':' ∷ g.info.game_name)
unfolding key
key-host g = ground arith

-- Two games with one key have the same source and the same name, and if they are remote they are
-- hosted by the same peer; both peers' addresses are IPv4 addresses.
pub key-injective :
    (g h : Game)
    → IsV4 g.peer_ip
    → IsV4 h.peer_ip
    → key g ≡ key h
    → (g.source ≡ h.source)
      × (g.info.game_name ≡ h.info.game_name)
      × (g.source ≡ source_remote → g.peer_ip ≡ h.peer_ip)
key-injective g h vg vh e =
    let (same_host, same_name) =
      split_at_sep b':' (host g.source g.peer_ip) (host h.source h.peer_ip) g.info.game_name
        h.info.game_name (host-Lacks g.source g.peer_ip vg) (host-Lacks h.source h.peer_ip vh)
        (sym (key-host g) ∙ e ∙ key-host h) in
    let (same_source, same_ip) =
      host-injective g.source h.source g.peer_ip h.peer_ip vg vh same_host in
    (same_source, same_name, same_ip)
