-- ===== src/Peer/Origin.antt =====
-- peer/manager.go: where the games of the registry come from.
use wc3ts.Prelude.{
  ◌≡◌, refl, sym, ap, ◌∙◌, subst, ◌⊎◌, inl, inr, Bool, true, false, Option, none, some, Bytes,
  bytes_discrete, take, arith, Option-cases, ℕ,
}
use wc3ts.Net.{Addr, UdpAddr, addr_from_slice, is_loopback}
use wc3ts.W3gs.{GameInfo, Packet, game_info, join, search_game, other, Decoder}
use wc3ts.Game.{Game, is_local, key}
use wc3ts.Game.Registry.{Registry, lookup, exists, stored}
use wc3ts.Game.Registry.View.{lookup-add}
use wc3ts.Peer.{Manager, Arrival, discovered, receive}
use wc3ts.Peer.Discover.{from_sender, announced_by, announced, registers, receive-registers}

-- The game is what an arrival tells: its packet, its bytes, and its sender, which is this machine
-- if the address is a loopback address.
pub record Told (decode : Decoder) (a : Arrival) (g : Game) : Type 0 where
  pub addr : UdpAddr
  pub udp : a.from ≡ some addr
  pub sender : addr_from_slice addr.ip ≡ some g.peer_ip
  pub decodes : decode (take 512 a.datagram) ≡ some (game_info g.info)
  pub same_data : g.raw_data ≡ take 512 a.datagram
  pub home : is_local g.source ≡ is_loopback g.peer_ip

discovered_fields :
    (m : Manager) (info : GameInfo) (raw : Bytes) (ip : Addr)
    → let g = discovered m info raw ip in
      (g.peer_ip ≡ ip) × (g.info ≡ info) × (g.raw_data ≡ raw) × (is_local g.source ≡ is_loopback ip)
unfolding discovered
discovered_fields m info raw ip = ground arith

module _ (decode : Decoder) (a : Arrival) where
  abbrev raw : Bytes
  raw = take 512 a.datagram

  discovered-Told :
      (info : GameInfo) (addr : UdpAddr) (ip : Addr)
      → decode raw ≡ some (game_info info)
      → a.from ≡ some addr
      → addr_from_slice addr.ip ≡ some ip
      → Told decode a (discovered a.manager info raw ip)
  discovered-Told info addr ip decodes udp sender =
      let (same_ip, same_info, same_data, home) = discovered_fields a.manager info raw ip in
      record {
        addr = addr;
        udp = udp;
        sender = rw same_ip sender;
        decodes = rw same_info decodes;
        same_data = same_data;
        home = rw same_ip home;
      }

  from_sender-Told :
      (info : GameInfo) (o : Option UdpAddr) (g : Game)
      → decode raw ≡ some (game_info info)
      → a.from ≡ o
      → from_sender a raw info o ≡ some g
      → Told decode a g
  from_sender-Told info none g decodes udp e = cc
  from_sender-Told info (some addr) g decodes udp e =
      elim (Option-cases (addr_from_slice addr.ip)) [
        | inl q ↦ absurd (ground arith)
        | inr (ip, q) ↦
            let same : discovered a.manager info raw ip ≡ g = ground arith in
            subst (Told decode a) same (discovered-Told info addr ip decodes udp q)
      ]

  announced_by-Told :
      (o : Option Packet) (g : Game)
      → decode raw ≡ o
      → announced_by a raw o ≡ some g
      → Told decode a g
  announced_by-Told (some (game_info info)) g d e = from_sender-Told info a.from g d refl e
  announced_by-Told (some (join j)) g d e = cc
  announced_by-Told (some (search_game s)) g d e = cc
  announced_by-Told (some other) g d e = cc
  announced_by-Told none g d e = cc

  stored-Told :
      (b : Bool) (now later : ℕ) (g : Game) → Told decode a g → Told decode a (stored b now later g)
  unfolding stored
  stored-Told true now later g t = record {
    addr = t.addr;
    udp = t.udp;
    sender = t.sender;
    decodes = t.decodes;
    same_data = t.same_data;
    home = t.home;
  }
  stored-Told false now later g t = record {
    addr = t.addr;
    udp = t.udp;
    sender = t.sender;
    decodes = t.decodes;
    same_data = t.same_data;
    home = t.home;
  }

  registers_cases :
      (r : Registry) (o : Option Game) (j : Bytes) (x : Game)
      → announced decode a ≡ o
      → lookup j (registers a o r).games ≡ some x
      → (lookup j r.games ≡ some x) ⊎ Told decode a x
  registers_cases r none j x e found = inl found
  registers_cases r (some g) j x e found =
      let entry = stored (exists (lookup (key g) r.games)) a.moment.now a.moment.later g in
      let is = sym (lookup-add a.moment.walk a.moment.now a.moment.later g r j) ∙ found in
      elim (bytes_discrete (key g) j) [
        | yes hit ↦
            let same : entry ≡ x = ground arith in
            inr (subst (Told decode a) same (stored-Told _ _ _ g (announced_by-Told _ g refl e)))
        | no miss ↦ inl ground arith
      ]

  -- What the registry has under a key after a datagram, it had before, or the datagram tells it.
  pub receive_cases :
      (r : Registry) (j : Bytes) (x : Game)
      → lookup j (receive decode a r).0.games ≡ some x
      → (lookup j r.games ≡ some x) ⊎ Told decode a x
  receive_cases r j x found =
      registers_cases r (announced decode a) j x refl
        (ap (λ y. lookup j y.games) (sym (receive-registers decode a r)) ∙ found)
