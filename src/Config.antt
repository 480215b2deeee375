-- ===== src/Config.antt =====
-- config/config.go: the default configuration, and game versions as text. A duration is a number of
-- nanoseconds.
pub mod Versions
use wc3ts.Prelude.{
  ℕ, ◌*◌, ◌^◌, Bool, true, List, [], ◌∷◌, ◌++◌, Option, none, some, Bytes, codes, ◌≡◌, refl,
}
use wc3ts.Text.{Parsed, number, decimal, trim_space, cut_prefix, parse_uint32}
use wc3ts.W3gs.{GameVersion}

abbrev pub second : ℕ
second = 10 ^ 9

abbrev pub default_game_version : ℕ
default_game_version = 26

pub record Config : Type 0 where
  pub game_version : GameVersion
  pub probe_interval : ℕ
  pub refresh_interval : ℕ
  pub game_timeout : ℕ
  pub show_peer_names : Bool

-- `product_tft` is the constant of the protocol package.
abbrev pub default_config : Bytes → Config
default_config product_tft = record {
  game_version = record { product = product_tft; version = default_game_version };
  probe_interval = 2 * second;
  refresh_interval = 3 * second;
  game_timeout = 10 * second;
  show_peer_names = true;
}

-- the `1.XX` form loses its prefix
pub without_major : Bytes → Bytes
without_major s = elim (cut_prefix s (codes "1.")) [ none ↦ s | some rest ↦ rest ]

unfoldable pub parse_version : Bytes → Parsed
unfolding without_major
parse_version s = parse_uint32 (without_major (trim_space s))

pub format_version : ℕ → Bytes
format_version v = codes "1." ++ decimal v

abbrev pub supported_versions : List ℕ
supported_versions = 26 ∷ 27 ∷ 28 ∷ []
