-- ===== src/App/Keeps.antt =====
-- cmd/wc3ts/run.go: the registry and the keys of the last broadcast, from event to event.
use mathlib.Core.List.Perm
use wc3ts.Prelude.{
  ℕ, ◌≡◌, ◌≢◌, refl, sym, subst, ◌∙◌, inl, inr, true, false, some, Bytes, bytes_discrete, arith,
}
use wc3ts.Prelude.Assoc.{Assoc, IsMap}
use wc3ts.Prelude.Walk.{Walk}
use wc3ts.Net.{Addr, UdpAddr, addr_from_slice}
use wc3ts.W3gs.{Decoder}
use wc3ts.Game.{Game, Source, key, source_local, source_remote, is_remote}
use wc3ts.Game.Key.{IsV4, key-injective}
use wc3ts.Game.Registry.{Registry, lookup, exists, stored, add}
use wc3ts.Game.Registry.View.{IsValid, lookup-add}
use wc3ts.Game.Registry.Values.{mem-values}
use wc3ts.Lan.{broadcast_games}
use wc3ts.Lan.Broadcast.{counter_of, broadcast-counters, broadcast-IsMap}
use wc3ts.Lan.Listed.{listed-Lists}
use wc3ts.Peer.{Arrival, receive}
use wc3ts.Peer.Calls.{receive-Calls}
use wc3ts.App.{App}
use wc3ts.App.Consistent.{Consistent}

-- A remote game of the registry under the key.
pub record Known (r : Registry) (k : Bytes) (g : Game) : Type 0 where
  pub bound : lookup k r.games ≡ some g
  pub remote : g.source ≡ source_remote

-- The hosts have IPv4 addresses, and each key of the last broadcast is still a remote game's.
pub record Keeps (r : Registry) (previous : Assoc Bytes ℕ) : Type 0 where
  pub one_each : IsMap bytes_discrete previous
  pub hosts : (k : Bytes) (g : Game) → lookup k r.games ≡ some g → IsV4 g.peer_ip
  pub kept : (k : Bytes) (h : ℕ) → counter_of k previous ≡ some h → (g : Game) × Known r k g

fields-stored :
    (b : _) (now later : ℕ) (g : Game)
    → ((stored b now later g).peer_ip ≡ g.peer_ip) × ((stored b now later g).source ≡ g.source)
unfolding stored
fields-stored true now later g = (refl, refl)
fields-stored false now later g = (refl, refl)

module _ (arr : Arrival) (r : Registry) (previous : Assoc Bytes ℕ) (g : Game) (v : IsValid r)
    (v4 : IsV4 g.peer_ip) (k : Keeps r previous) where
  abbrev after : Registry
  after = (add arr.moment.walk arr.moment.now arr.moment.later g r).registry

  abbrev entry : Game
  entry = stored (exists (lookup (key g) r.games)) arr.moment.now arr.moment.later g

  found : (j : Bytes) → key g ≡ j → lookup j after.games ≡ some entry
  found j hit = lookup-add arr.moment.walk arr.moment.now arr.moment.later g r j ∙ ground arith

  other : (j : Bytes) → key g ≢ j → lookup j after.games ≡ lookup j r.games
  other j miss = lookup-add arr.moment.walk arr.moment.now arr.moment.later g r j ∙ ground arith

  keeps_host : (j : Bytes) (x : Game) → lookup j after.games ≡ some x → IsV4 x.peer_ip
  keeps_host j x e = elim (bytes_discrete (key g) j) [
    | yes hit ↦
        let same : entry ≡ x = cc (sym (found j hit) ∙ e) in
        let same_ip = (fields-stored (exists (lookup (key g) r.games)) _ _ g).0 in
        subst (λ y. IsV4 y.peer_ip) same (subst IsV4 (sym same_ip) v4)
    | no miss ↦ k.hosts j x (sym (other j miss) ∙ e)
  ]

  -- A game that is stored under a key in place of another has the other's source.
  replaced : (j : Bytes) (x : Game) → key g ≡ j → Known r j x → Known after j entry
  replaced j x hit was =
      let (same_source, _, _) =
        key-injective g x v4 (k.hosts j x was.bound) (hit ∙ sym (v.keyed j x was.bound)) in
      record {
        bound = found j hit;
        remote =
            (fields-stored (exists (lookup (key g) r.games)) _ _ g).1 ∙ same_source ∙ was.remote;
      }

  add-Keeps : Keeps after previous
  add-Keeps = record {
    one_each = k.one_each;
    hosts = keeps_host;
    kept = λ j h e.
        let (x, was) = k.kept j h e in
        elim (bytes_discrete (key g) j) [
          | yes hit ↦ (entry, replaced j x hit was)
          | no miss ↦ (x, record { bound = other j miss ∙ was.bound; remote = was.remote })
        ];
  }

of_remote : (s : Source) → is_remote s ≡ true → s ≡ source_remote
of_remote source_local e = cc
of_remote source_remote e = refl

pub receive-Keeps :
    (decode : Decoder) (arr : Arrival) (r : Registry) (previous : Assoc Bytes ℕ)
    → ((addr : UdpAddr) (ip : Addr)
        → arr.from ≡ some addr
        → addr_from_slice addr.ip ≡ some ip
        → IsV4 ip)
    → IsValid r
    → Keeps r previous
    → Keeps (receive decode arr r).0 previous
receive-Keeps decode arr r previous from_v4 v k = elim (receive-Calls decode arr r) [
  | inl same ↦ subst (λ h. Keeps h.0 previous) (sym same) k
  | inr (g, sent, done) ↦
      subst (λ h. Keeps h.0 previous) (sym done)
        (add-Keeps arr r previous g v (from_v4 sent.addr g.peer_ip sent.udp sent.sender) k)
]

pub tick-Keeps :
    (w : Walk (Bytes × ℕ)) (a : App)
    → Consistent a
    → Keeps a.registry a.broadcaster.previous_game_keys
    → Keeps a.registry (broadcast_games w a.broadcaster).0.previous_game_keys
tick-Keeps w a c k = record {
  one_each = broadcast-IsMap w a.broadcaster;
  hosts = k.hosts;
  kept = λ j h e.
      let (g, l) =
        listed-Lists j a.broadcaster.games h (sym (broadcast-counters w a.broadcaster j) ∙ e) in
      let bound = (mem-values a.registry g c.valid).0 ((Perm.mem_iff c.same_games).0 l.here) in
      (
        g,
        record {
          bound = subst (λ i. lookup i a.registry.games ≡ some g) l.same_key bound;
          remote = of_remote g.source l.remote;
        },
      );
}
