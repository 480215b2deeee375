-- ===== src/W3gs.antt =====
-- The fields that the program reads and writes of the packets of `gowarcraft3/protocol/w3gs`. The
-- package is not part of the repository: its decoder is a parameter of the code that calls it.
use wc3ts.Prelude.{ℕ, Option, Bytes}

pub record GameVersion : Type 0 where
  pub product : Bytes
  pub version : ℕ

pub record GameInfo : Type 0 where
  pub game_version : GameVersion
  pub host_counter : ℕ
  pub game_name : Bytes
  pub map_path : Bytes
  pub host_name : Bytes
  pub slots_total : ℕ
  pub slots_used : ℕ
  pub slots_available : ℕ
  pub game_port : ℕ

pub record SearchGame : Type 0 where
  pub game_version : GameVersion
  pub host_counter : ℕ

pub record Join : Type 0 where
  pub host_counter : ℕ
  pub player_name : Bytes

-- What the decoder makes of a packet, as far as the program tells packets apart.
pub data Packet : Type 0 where
  game_info : GameInfo → Packet
  join : Join → Packet
  search_game : SearchGame → Packet
  other : Packet

-- `w3gs.Deserialize`: a packet, or an error
abbrev pub Decoder : Type 0
Decoder = Bytes → Option Packet
