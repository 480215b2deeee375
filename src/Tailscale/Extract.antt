-- ===== src/Tailscale/Extract.antt =====
-- tailscale/discovery.go: `extractPeer` and `extractPeers`.
use mathlib.Core.List.{mem-cons_self, mem-cons_of_mem, not-mem-nil, mem-cons, mem-cast, Mem-prop}
use mathlib.Core.Logic.Or
use mathlib.Core.Logic.{∥∥₁_map, ∥∥₁_elim}
use wc3ts.Prelude.{
  Bool-cases, ◌≡◌, ◌≢◌, ◌↔◌, refl, ap, sym, Bool, true, false, List, [], ◌∷◌, ◌++◌, arith, Bytes,
  bytes_discrete, codes, Option, none, some, Mem, All, inl, inr, Option-cases, ◌∙◌,
}
use wc3ts.Text.{to_lower}
use wc3ts.Net.{Addr, is4}
use wc3ts.Tailscale.{
  Peer, NodeView, extract_peer, extract_peers, first_ipv4, contains, is_mobile, node_os,
  node_online, mullvad_exit_node_tag, peer_at,
}

-- The first IPv4 address of the list.
pub record IsFirstV4 (addrs : List Addr) (a : Addr) : Type 0 where
  pub before : List Addr
  pub behind : List Addr
  pub splits : addrs ≡ before ++ a ∷ behind
  pub none_before : All (λ b. is4 b ≡ false) before
  pub is_v4 : is4 a ≡ true

first_ipv4-IsFirstV4 :
    (addrs : List Addr) (a : Addr) → first_ipv4 addrs ≡ some a → IsFirstV4 addrs a
unfolding first_ipv4
first_ipv4-IsFirstV4 [] a e = cc
first_ipv4-IsFirstV4 (b ∷ addrs) a e = elim (Bool-cases (is4 b)) [
  | inl hit ↦ record {
    before = [];
    behind = addrs;
    splits = ground arith;
    none_before = tt;
    is_v4 = ground arith;
  }
  | inr miss ↦
      let rest = first_ipv4-IsFirstV4 addrs a (ground arith) in
      record {
        before = b ∷ rest.before;
        behind = rest.behind;
        splits = ap (◌∷◌ b) rest.splits;
        none_before = (miss, rest.none_before);
        is_v4 = rest.is_v4;
      }
]

IsFirstV4-first_ipv4 :
    (before behind : List Addr) (a : Addr)
    → All (λ b. is4 b ≡ false) before
    → is4 a ≡ true
    → first_ipv4 (before ++ a ∷ behind) ≡ some a
unfolding first_ipv4
IsFirstV4-first_ipv4 [] behind a h e = ground arith
IsFirstV4-first_ipv4 (b ∷ before) behind a h e =
    ground (arith, IsFirstV4-first_ipv4 before behind a h.1 e)

-- The tag is among the tags.
mem_of_contains : (x : Bytes) (ys : List Bytes) → contains x ys ≡ true → Mem x ys
unfolding contains
mem_of_contains x [] e = cc
mem_of_contains x (y ∷ ys) e = elim (bytes_discrete y x) [
  | yes hit ↦ mem-cast (sym hit) mem-cons_self
  | no miss ↦ mem-cons_of_mem y (mem_of_contains x ys (ground arith))
]

contains_of_mem : (x : Bytes) (ys : List Bytes) → Mem x ys → contains x ys ≡ true
unfolding contains
contains_of_mem x [] m = absurd (not-mem-nil m)
contains_of_mem x (y ∷ ys) m =
    Or.elim (hlevel) (mem-cons.0 m) (λ same. ground arith)
      (λ later. ground (arith, contains_of_mem x ys later))

-- The conditions on a node, and what is taken from it.
pub record Admits (n : NodeView) (p : Peer) : Type 0 where
  pub valid : n.valid ≡ true
  pub online : n.online ≡ some true
  pub no_exit_node : ¬ Mem mullvad_exit_node_tag n.tags
  pub no_phone : (to_lower (node_os n) ≢ codes "ios") × (to_lower (node_os n) ≢ codes "android")
  pub first : IsFirstV4 n.addresses p.ip
  pub same_name : p.name ≡ n.computed_name
  pub same_os : p.os ≡ node_os n
  pub is_online : p.online ≡ true

peer_at-some :
    (n : NodeView) (p : Peer) (o : Option Addr)
    → peer_at n o ≡ some p
    → (o ≡ some p.ip) × (p.name ≡ n.computed_name) × (p.os ≡ node_os n) × (p.online ≡ node_online n)
unfolding peer_at
peer_at-some n p none e = cc
peer_at-some n p (some a) e = ground arith

node_online-true : (n : NodeView) → node_online n ≡ true → n.online ≡ some true
unfolding node_online
node_online-true n e = ground arith

is_mobile-false :
    (os : Bytes)
    → is_mobile os ≡ false
    → (to_lower os ≢ codes "ios") × (to_lower os ≢ codes "android")
unfolding is_mobile
is_mobile-false os e = (λ h. ground arith, λ h. ground arith)

extract_peer-Admits : (n : NodeView) (p : Peer) → extract_peer n ≡ some p → Admits n p
unfolding extract_peer
extract_peer-Admits n p e =
    let tests : (n.valid ≡ true)
        × (node_online n ≡ true)
        × (contains mullvad_exit_node_tag n.tags ≡ false)
        × (is_mobile (node_os n) ≡ false)
        × (peer_at n (first_ipv4 n.addresses) ≡ some p) =
      ground arith in
    let (valid, online, tag, os, peer) = tests in
    let (first, name, same_os, is_online) = peer_at-some n p (first_ipv4 n.addresses) peer in
    record {
      valid = valid;
      online = node_online-true n online;
      no_exit_node = λ m. ground (arith, contains_of_mem mullvad_exit_node_tag n.tags m);
      no_phone = is_mobile-false (node_os n) os;
      first = first_ipv4-IsFirstV4 n.addresses p.ip first;
      same_name = name;
      same_os = same_os;
      is_online = is_online ∙ online;
    }

not_contained : {b : Bool} → (b ≡ true → ⊥) → b ≡ false
not_contained {b = true} h = absurd (h refl)
not_contained {b = false} h = refl

not_mobile :
    (os : Bytes)
    → (to_lower os ≢ codes "ios") × (to_lower os ≢ codes "android")
    → is_mobile os ≡ false
unfolding is_mobile
not_mobile os h = ground arith

Admits-extract_peer : (n : NodeView) (p : Peer) → Admits n p → extract_peer n ≡ some p
unfolding extract_peer
Admits-extract_peer n p a =
    let online : node_online n ≡ true = unfold node_online in ground arith in
    let tag : contains mullvad_exit_node_tag n.tags ≡ false =
      not_contained (λ c. a.no_exit_node (mem_of_contains mullvad_exit_node_tag n.tags c)) in
    let os : is_mobile (node_os n) ≡ false = not_mobile (node_os n) a.no_phone in
    let first : first_ipv4 n.addresses ≡ some p.ip =
      ap first_ipv4 a.first.splits
      ∙ IsFirstV4-first_ipv4 a.first.before a.first.behind p.ip a.first.none_before a.first.is_v4 in
    let peer : peer_at n (some p.ip) ≡ some p = unfold peer_at in ground arith in ground arith

mem-extract_peers :
    (ns : List NodeView) (p : Peer)
    → Mem p (extract_peers ns)
    → ∥ ((n : NodeView) × Mem n ns × Admits n p) ∥₁
unfolding extract_peers
mem-extract_peers [] p m = absurd (not-mem-nil m)
mem-extract_peers (n ∷ ns) p m =
    let deeper : Mem p (extract_peers ns) → ∥ ((x : NodeView) × Mem x (n ∷ ns) × Admits x p) ∥₁ =
      λ l. ∥∥₁_map (mem-extract_peers ns p l) (λ t. (t.0, mem-cons_of_mem n t.1, t.2)) in
    elim (Option-cases (extract_peer n)) [
      | inl e ↦ deeper (rw (e, extract_peers) at m)
      | inr (q, e) ↦
          Or.elim squash₁ (mem-cons.0 (rw (e, extract_peers) at m))
            (λ same. ∣ (n, mem-cons_self, extract_peer-Admits n p (e ∙ ap some (sym same))) ∣₁)
            deeper
    ]

extract_peers-mem :
    (ns : List NodeView) (n : NodeView) (p : Peer)
    → Mem n ns
    → extract_peer n ≡ some p
    → Mem p (extract_peers ns)
unfolding extract_peers
extract_peers-mem [] n p m e = absurd (not-mem-nil m)
extract_peers-mem (x ∷ ns) n p m e =
    Or.elim Mem-prop (mem-cons.0 m)
      (λ same. rw (ap extract_peer (sym same) ∙ e, extract_peers) mem-cons_self)
      (λ later.
        let rest = extract_peers-mem ns n p later e in
        elim (Option-cases (extract_peer x)) [
          | inl c ↦ rw (c, extract_peers) rest
          | inr (q, c) ↦ rw (c, extract_peers) (mem-cons_of_mem q rest)
        ])

-- The peers that are extracted from a network map are exactly what its admitted nodes give: those
-- that are valid and online, are no Mullvad exit nodes, do not run iOS or Android, and have an IPv4
-- address. A peer has its node's name and system, and the first of the node's IPv4 addresses.
pub mem-extract_peers_iff :
    (ns : List NodeView) (p : Peer)
    → Mem p (extract_peers ns) ↔ ∥ ((n : NodeView) × Mem n ns × Admits n p) ∥₁
mem-extract_peers_iff ns p = (
  mem-extract_peers ns p,
  λ t. ∥∥₁_elim t Mem-prop (λ x. extract_peers-mem ns x.0 p x.1 (Admits-extract_peer x.0 p x.2)),
)
