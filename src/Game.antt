-- ===== src/Game.antt =====
-- game/game.go: the games that the proxy has discovered. A time is a number of nanoseconds, and 0
-- is Go's zero time; a timeout is not negative.
pub mod Key
pub mod Registry
use wc3ts.Prelude.{
  ℕ, ◌+◌, ◌≡◌, refl, ◌⊎◌, inl, inr, Bool, true, false, ◌++◌, ◌∷◌, Bytes, codes, ltb, if◌then◌else◌,
}
use wc3ts.Net.{Addr, addr_text}
use wc3ts.W3gs.{GameInfo}

-- The two values of the type `Source` that the program has.
pub data Source : Type 0 where
  source_local source_remote : Source

abbrev pub is_local : Source → Bool
is_local source_local = true
is_local source_remote = false

abbrev pub is_remote : Source → Bool
is_remote source_local = false
is_remote source_remote = true

abbrev pub source_text : Source → Bytes
source_text source_local = codes "local"
source_text source_remote = codes "remote"

pub record Game : Type 0 where
  pub info : GameInfo
  pub raw_data : Bytes
  pub source : Source
  pub peer_ip : Addr
  pub peer_name : Bytes
  pub first_seen : ℕ
  pub last_seen : ℕ

unfoldable pub key : Game → Bytes
key g =
    if is_local g.source
    then codes "local:" ++ g.info.game_name
    else addr_text g.peer_ip ++ (b':' ∷ g.info.game_name)

-- `time.Since(g.LastSeen) > timeout`, on a clock that shows `now`
abbrev pub is_stale : ℕ → ℕ → Game → Bool
is_stale now timeout g = ltb (g.last_seen + timeout) now
