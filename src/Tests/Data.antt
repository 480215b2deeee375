-- ===== src/Tests/Data.antt =====
-- Sample games, peers and registries.
use wc3ts.Prelude.{ℕ, ◌≡◌, refl, true, [], ◌∷◌, Bytes, codes, bytes_discrete, ℕ_discrete}
use wc3ts.Prelude.Assoc.{get}
use wc3ts.Net.{Addr, v4, addr_text}
use wc3ts.Text.{decimal}
use wc3ts.W3gs.{GameVersion, GameInfo}
use wc3ts.Game.{Game, source_local, source_remote, key}
use wc3ts.Game.Registry.{Registry}
use wc3ts.Game.Registry.View.{IsValid, keyed_of_entries}

abbrev pub tft : GameVersion
tft = record { product = codes "W3XP"; version = 26 }

abbrev pub lobby : ℕ → GameInfo
lobby counter = record {
  game_version = tft;
  host_counter = counter;
  game_name = codes "lobby";
  map_path = codes "Maps/a.w3x";
  host_name = codes "ada";
  slots_total = 8;
  slots_used = 2;
  slots_available = 6;
  game_port = 6112;
}

abbrev pub peer_addr : Addr
peer_addr = v4 100 64 0 7

abbrev pub packet : Bytes
packet = 247 ∷ 48 ∷ 6 ∷ 0 ∷ 224 ∷ 23 ∷ []

abbrev pub remote_game : Game
remote_game = record {
  info = lobby 3;
  raw_data = packet;
  source = source_remote;
  peer_ip = peer_addr;
  peer_name = codes "box";
  first_seen = 10;
  last_seen = 20;
}

abbrev pub local_game : Game
local_game = record remote_game {
  info = lobby 5;
  source = source_local;
  peer_ip = v4 127 0 0 1;
  peer_name = codes "local";
}

abbrev pub registry : Registry
registry = record {
  games = (codes "100.64.0.7:lobby", remote_game) ∷ (codes "local:lobby", local_game) ∷ [];
  on_change = true;
}

pub key-remote_game : key remote_game ≡ codes "100.64.0.7:lobby"
unfolding key addr_text decimal
key-remote_game = refl

pub key-local_game : key local_game ≡ codes "local:lobby"
unfolding key
key-local_game = refl

pub registry-IsValid : IsValid registry
unfolding get bytes_discrete ℕ_discrete
registry-IsValid = record {
  one_each = (refl, (refl, tt));
  keyed = λ k g. keyed_of_entries registry.games k g (key-remote_game, (key-local_game, tt));
}
