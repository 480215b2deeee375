-- ===== src/Lan/Packets.antt =====
-- lan/broadcaster.go: the packets.
use wc3ts.Prelude.{
  ℕ, suc, ◌+◌, ◌-◌, ◌*◌, ◌^◌, ◌≤◌, ◌<◌, ◌≡◌, refl, ap, sym, ◌∙◌, [], ◌∷◌, ◌++◌, arith, Bytes,
  length, take, set, Option, none, some, drop,
}
use wc3ts.Game.{Game}
use wc3ts.Lan.{with_port, send_raw_game_info, send_refresh_game, send_decreate_game, byte_at}

-- The number that four bytes spell, the lowest first.
abbrev pub read32 : Bytes → Option ℕ
read32 (a ∷ b ∷ c ∷ d ∷ s) = some (a + 256 * b + 65536 * c + 16777216 * d)
read32 s = none

abbrev pub read16 : Bytes → Option ℕ
read16 (a ∷ b ∷ s) = some (a + 256 * b)
read16 s = none

set_two :
    (front : Bytes) (a b x y : ℕ)
    → set (set (front ++ a ∷ b ∷ []) (length front) x) (length front + 1) y ≡ front ++ x ∷ y ∷ []
set_two [] a b x y = refl
set_two (c ∷ front) a b x y = rw (shift (length front)) (ap (◌∷◌ c) (set_two front a b x y))
  where
    shift : (n : ℕ) → suc n + 1 ≡ suc (n + 1)
    shift n = omega arith

-- A text with two bytes or more is a front part and its last two bytes.
last_two :
    (s : Bytes) → 2 ≤ length s → (front : Bytes) × (a : ℕ) × (b : ℕ) × (s ≡ front ++ a ∷ b ∷ [])
last_two [] h = absurd (omega arith)
last_two (a ∷ []) h = absurd (omega arith)
last_two (a ∷ b ∷ []) h = ([], a, b, refl)
last_two (a ∷ b ∷ c ∷ s) h =
    let (front, x, y, e) = last_two (b ∷ c ∷ s) (omega arith) in (a ∷ front, x, y, ap (◌∷◌ a) e)

length-front : (front : Bytes) (a b : ℕ) → length (front ++ a ∷ b ∷ []) ≡ length front + 2
length-front [] a b = refl
length-front (c ∷ front) a b = omega (arith, length-front front a b)

take-front : (front s : Bytes) → take (length front) (front ++ s) ≡ front
take-front [] s = refl
take-front (c ∷ front) s = ap (◌∷◌ c) (take-front front s)

drop-front : (front s : Bytes) → drop (length front) (front ++ s) ≡ s
drop-front [] s = refl
drop-front (c ∷ front) s = drop-front front s

with_port_lem :
    (port : ℕ) (front : Bytes) (a b : ℕ)
    → with_port port (front ++ a ∷ b ∷ []) ≡ front ++ byte_at port 0 ∷ byte_at port 8 ∷ []
unfolding with_port
with_port_lem port front a b =
    rw (length-front front a b, minus (length front)) (set_two front a b _ _)
  where
    minus : (n : ℕ) → n + 2 - 2 ≡ n
    minus n = omega arith

read16_port : (port : ℕ) → port < 2 ^ 16 → byte_at port 0 + 256 * byte_at port 8 ≡ port
read16_port port h = omega arith

read32_word :
    (x : ℕ)
    → x < 2 ^ 32
    → byte_at x 0 + 256 * byte_at x 8 + 65536 * byte_at x 16 + 16777216 * byte_at x 24 ≡ x
read32_word x h = omega arith

-- The packet differs from the raw data in its last two bytes only, and these spell the port.
abbrev pub Readdressed : ℕ → Bytes → Bytes → Type 0
Readdressed port raw p =
    (length p ≡ length raw)
    × (take (length raw - 2) p ≡ take (length raw - 2) raw)
    × (read16 (drop (length raw - 2) p) ≡ some port)

with_port-Readdressed :
    (port : ℕ) (raw : Bytes)
    → port < 2 ^ 16
    → 2 ≤ length raw
    → Readdressed port raw (with_port port raw)
with_port-Readdressed port raw hp h =
    let (front, a, b, e) = last_two raw h in
    rw (e, with_port_lem port front a b, length-front front a b, minus (length front))
      (
        length-front front (byte_at port 0) (byte_at port 8),
        take-front front (byte_at port 0 ∷ byte_at port 8 ∷ [])
            ∙ sym (take-front front (a ∷ b ∷ [])),
        ap read16 (drop-front front (byte_at port 0 ∷ byte_at port 8 ∷ []))
            ∙ ap some (read16_port port hp),
      )
  where
    minus : (n : ℕ) → n + 2 - 2 ≡ n
    minus n = omega arith

-- Raw data shorter than four bytes is not forwarded. Other raw data is forwarded as one packet,
-- which differs from it in the last two bytes only, and these spell the port of the proxy.
pub send_raw_game_info_lem :
    (port : ℕ) (g : Game)
    → port < 2 ^ 16
    → (length g.raw_data < 4 → send_raw_game_info port g ≡ [])
      × (4 ≤ length g.raw_data
          → (p : Bytes) × (send_raw_game_info port g ≡ p ∷ []) × Readdressed port g.raw_data p)
unfolding send_raw_game_info
send_raw_game_info_lem port g hp = (
  λ short. ground arith,
  λ h. (
    with_port port g.raw_data,
    ground arith,
    with_port-Readdressed port g.raw_data hp (omega arith),
  ),
)

-- Each of the two packets that the broadcaster makes states its own length, and the numbers of 32
-- bits in it are read back.
pub packet_fields :
    (h u a : ℕ)
    → h < 2 ^ 32
    → u < 2 ^ 32
    → a < 2 ^ 32
    → (read16 (drop 2 (send_decreate_game h)) ≡ some (length (send_decreate_game h)))
      × (read32 (drop 4 (send_decreate_game h)) ≡ some h)
      × (read16 (drop 2 (send_refresh_game h u a)) ≡ some (length (send_refresh_game h u a)))
      × (read32 (drop 4 (send_refresh_game h u a)) ≡ some h)
      × (read32 (drop 8 (send_refresh_game h u a)) ≡ some u)
      × (read32 (drop 12 (send_refresh_game h u a)) ≡ some a)
unfolding send_decreate_game send_refresh_game
packet_fields h u a hh hu ha = (
  refl,
  ap some (read32_word h hh),
  refl,
  ap some (read32_word h hh),
  ap some (read32_word u hu),
  ap some (read32_word a ha),
)
