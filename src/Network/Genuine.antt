-- ===== src/Network/Genuine.antt =====
-- cmd/wc3ts/run.go on several machines: where the games come from.
use mathlib.Core.List.{mem-append, mem-cons_self, mem-cons_of_mem}
use mathlib.Core.Logic.Or
use mathlib.Core.Logic.{∥∥₁_map, ∥∥₁_elim}
use wc3ts.Prelude.{
  ◌≡◌, refl, sym, ap, ◌∙◌, subst, inl, inr, false, List, ◌∷◌, Option, some, Bytes, Mem, take,
  take-take, if◌then◌else◌,
}
use wc3ts.Net.{Addr, UdpAddr, addr_from_slice, as_slice, is_loopback}
use wc3ts.W3gs.{Decoder, game_info}
use wc3ts.Game.{Game, is_local, key}
use wc3ts.Game.Key.{IsV4, is_v4}
use wc3ts.Game.Registry.{Registry, lookup}
use wc3ts.Peer.{Moment}
use wc3ts.Peer.Origin.{Told, receive_cases}
use wc3ts.App
use wc3ts.App.{App, AppEvent, Output, app_step, games_changed, peers_changed, is_some}
use wc3ts.App.Consistent.{Consistent, app_step-Consistent}
use wc3ts.Network.Letters.{
  put_app_all, none_of, heard, datagram_registry, datagram_letters, Quiet-registry, Quiet-letters,
  Offers,
}
use wc3ts.Network.{
  Letter, Saying, Network, origin, occur, say, deliver, Quiet, Move, acts, says, delivers, Comes,
  at_first, and_then,
}

-- The bytes are what something on the machine has sent, as far as they fit the buffer.
abbrev pub SaidAt : List Saying → Addr → Bytes → Type 0
SaidAt said machine raw =
    ∥ ((d : Bytes) × Mem (record { machine = machine; datagram = d }) said × (raw ≡ take 512 d)) ∥₁

-- The machine on which a game that this machine knows is hosted.
abbrev pub home : Addr → Game → Addr
home i g = if is_local g.source then i else g.peer_ip

-- The game was announced on the machine, in a packet that says what the game's fields say.
pub record Announced (decode : Decoder) (said : List Saying) (machine : Addr) (g : Game)
    : Type 0 where
  pub said_there : SaidAt said machine g.raw_data
  pub decodes : decode g.raw_data ≡ some (game_info g.info)

pub record Genuine (decode : Decoder) (n : Network) : Type 0 where
  pub consistent : (i : Addr) → Consistent (n.apps i)
  pub games :
      (i : Addr) (k : Bytes) (g : Game)
      → lookup k (n.apps i).registry.games ≡ some g
      → Announced decode n.said (home i g) g
  pub letters : (l : Letter) → Mem l n.sent → SaidAt n.said l.machine l.reply.payload

pub from_slice-as_slice : {a : Addr} → IsV4 a → addr_from_slice (as_slice a) ≡ some a
unfolding addr_from_slice as_slice
from_slice-as_slice (is_v4 a b c d) = refl

module _ (decode : Decoder) where
  pub sender_ip :
      (t : Moment) (d : Bytes) (from : UdpAddr) (ip : Addr) (a : App) (g : Game)
      → addr_from_slice from.ip ≡ some ip
      → Told decode (heard t d (some from) a) g
      → g.peer_ip ≡ ip
  sender_ip t d from ip a g sender told =
      let same : from ≡ told.addr = cc (told.udp) in
      let both : some ip ≡ some g.peer_ip =
        sym sender ∙ ap (λ (x : UdpAddr). addr_from_slice x.ip) same ∙ told.sender in
      cc both

  -- What was announced is announced when more has been said.
  more-Announced :
      (said more : List Saying) (m : Addr) (g : Game)
      → ((x : Saying) → Mem x said → Mem x more)
      → Announced decode said m g
      → Announced decode more m g
  more-Announced said more m g keeps x = record {
    said_there = ∥∥₁_map x.said_there (λ t. (t.0, keeps _ t.1, t.2));
    decodes = x.decodes;
  }

  offers-SaidAt :
      (i : Addr) (said : List Saying) (a : App) (l : Letter)
      → ((x : Bytes) (g : Game)
          → lookup x a.registry.games ≡ some g
          → Announced decode said (home i g) g)
      → Offers i a l
      → SaidAt said l.machine l.reply.payload
  offers-SaidAt i said a l games (of_i, g, (bound, local, _), same) =
      let here : home i g ≡ l.machine = rw local (sym of_i) in
      ∥∥₁_map (games (key g) g bound).said_there (λ t.
        (t.0, subst (λ m. Mem (record { machine = m; datagram = t.0 }) said) here t.1, same ∙ t.2))

  occur-Genuine :
      (i : Addr) (e : AppEvent) (n : Network)
      → Quiet e
      → Genuine decode n
      → Genuine decode (occur decode i e n)
  unfolding occur
  occur-Genuine i e n q k =
      let a' = (app_step decode e (n.apps i)).0 in
      let outputs = (app_step decode e (n.apps i)).1 in
      record {
        consistent =
            put_app_all (λ j a. Consistent a) i a' n.apps
              (app_step-Consistent decode e (n.apps i) (k.consistent i)) k.consistent;
        games =
            put_app_all
              (λ j a.
                (x : Bytes) (g : Game)
                → lookup x a.registry.games ≡ some g
                → Announced decode n.said (home j g) g)
              i a' n.apps
              (λ x g e'. k.games i x g (
                ap (λ (r : Registry). lookup x r.games) (sym (Quiet-registry decode e (n.apps i) q))
                ∙ e'))
              k.games;
        letters = λ l m.
            Or.elim squash₁ (mem-append.0 m)
              (λ new.
                ∥∥₁_elim (Quiet-letters decode i e (n.apps i) l q (k.consistent i) new) squash₁
                  (λ o. offers-SaidAt i n.said (n.apps i) l (k.games i) o))
              (k.letters l);
      }

  -- A datagram tells only of what has been said at its sender.
  hear-Genuine :
      (i : Addr) (t : Moment) (d : Bytes) (from : Option UdpAddr) (n : Network) (more : List Saying)
      → ((x : Saying) → Mem x n.said → Mem x more)
      → ((g : Game)
          → Told decode (heard t d from (n.apps i)) g
          → SaidAt more (home i g) (take 512 d))
      → Genuine decode n
      → Genuine decode (record (occur decode i (App.datagram t d from) n) { said = more })
  unfolding occur
  hear-Genuine i t d from n more keeps tells k =
      let e = App.datagram t d from in
      let a' = (app_step decode e (n.apps i)).0 in
      let received = datagram_registry decode t d from (n.apps i) in
      record {
        consistent =
            put_app_all (λ j a. Consistent a) i a' n.apps
              (app_step-Consistent decode e (n.apps i) (k.consistent i)) k.consistent;
        games =
            put_app_all
              (λ j a.
                (x : Bytes) (g : Game)
                → lookup x a.registry.games ≡ some g
                → Announced decode more (home j g) g)
              i a' n.apps
              (λ x g found.
                elim (receive_cases decode (heard t d from (n.apps i)) (n.apps i).registry x g
                  (ap (λ (r : Registry). lookup x r.games) (sym received) ∙ found)) [
                    | inl old ↦ more-Announced n.said more (home i g) g keeps (k.games i x g old)
                    | inr told ↦ record {
                      said_there =
                          subst (SaidAt more (home i g)) (sym told.same_data) (tells g told);
                      decodes = ap decode told.same_data ∙ told.decodes;
                    }
                  ])
              (λ j x g found. more-Announced n.said more (home j g) g keeps (k.games j x g found));
        letters = λ l m.
            Or.elim squash₁ (mem-append.0 m)
              (λ new. none_of (datagram_letters decode t d from (n.apps i) i) new)
              (λ old. ∥∥₁_map (k.letters l old) (λ t. (t.0, keeps _ t.1, t.2)));
      }

  say-Genuine :
      (i : Addr) (t : Moment) (d : Bytes) (from : UdpAddr) (ip : Addr) (n : Network)
      → addr_from_slice from.ip ≡ some ip
      → Genuine decode n
      → Genuine decode (say decode i t d from ip n)
  unfolding say
  say-Genuine i t d from ip n sender k =
      let new : Saying = record { machine = origin i ip; datagram = d } in
      hear-Genuine i t d (some from) n (new ∷ n.said) (λ x. mem-cons_of_mem new)
        (λ g told.
          let same_ip : g.peer_ip ≡ ip = sender_ip t d from ip (n.apps i) g sender told in
          let there : origin i ip ≡ home i g = rw (told.home, same_ip) refl in
          ∣ (
            d,
            subst (λ m. Mem (record { machine = m; datagram = d }) (new ∷ n.said)) there
                mem-cons_self,
            refl,
          ) ∣₁)
        k

  deliver-Genuine :
      (i : Addr) (t : Moment) (l : Letter) (n : Network)
      → Mem l n.sent
      → IsV4 l.machine
      → is_loopback l.machine ≡ false
      → Genuine decode n
      → Genuine decode (deliver decode i t l n)
  unfolding deliver occur
  deliver-Genuine i t l n m ipv4 far k =
      hear-Genuine i t l.reply.payload _ n n.said (λ x h. h)
        (λ g told.
          let same_ip : g.peer_ip ≡ l.machine =
            sender_ip t l.reply.payload _ l.machine (n.apps i) g (from_slice-as_slice ipv4) told in
          let there : l.machine ≡ home i g = rw (told.home, same_ip, far) refl in
          ∥∥₁_map (k.letters l m) (λ x. (
            x.0,
            subst (λ y. Mem (record { machine = y; datagram = x.0 }) n.said) there x.1,
            ap (take 512) x.2 ∙ take-take 512 x.0,
          )))
        k

  Move-Genuine : (n m : Network) → Move decode n m → Genuine decode n → Genuine decode m
  Move-Genuine n m (acts i e q) k = occur-Genuine i e n q k
  Move-Genuine n m (says i t d from ip sender) k = say-Genuine i t d from ip n sender k
  Move-Genuine n m (delivers i t l sent ipv4 far) k = deliver-Genuine i t l n sent ipv4 far k

  pub Comes-Genuine : (n m : Network) → Comes decode n m → Genuine decode n → Genuine decode m
  Comes-Genuine n m at_first k = k
  Comes-Genuine n m (and_then j _ before step) k =
      Move-Genuine j m step (Comes-Genuine n j before k)
