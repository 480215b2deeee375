-- ===== src/Peer/Probing.antt =====
-- peer/manager.go: whom a manager asks for games.
use mathlib.Core.List.{mem-cons_self, mem-cons_of_mem, not-mem-nil, mem-cons, mem-cast, Mem-prop}
use mathlib.Core.Logic.Or
use mathlib.Core.Logic.{∥∥₁_map, ∥∥₁_elim}
use wc3ts.Prelude.{
  ℕ, ◌≡◌, ◌≢◌, ◌⊎◌, ◌==◌, ◌↔◌, refl, sym, ap, ◌∙◌, true, false, List, [], ◌∷◌, arith, Mem,
  Bool-cases, inl, inr,
}
use wc3ts.W3gs.{GameVersion}
use wc3ts.Tailscale.{NodeView, Peer, extract_peers}
use wc3ts.Tailscale.Extract.{Admits, mem-extract_peers_iff}
use wc3ts.Peer.{
  Manager, Probe, probe_all_peers, probe_local, probe_peer, probe_online, on_peers_changed,
}

-- The probes that a manager owes to a list of peers.
pub data Owed (v : GameVersion) (peers : List Peer) (p : Probe) : Type 0 where
  local : p ≡ probe_local v → Owed v peers p
  remote : (x : Peer) → Mem x peers → x.online ≡ true → p ≡ probe_peer x.ip v → Owed v peers p

probe_online-mem :
    (v : GameVersion) (ps : List Peer) (p : Probe)
    → Mem p (probe_online v ps)
    → ∥ ((x : Peer) × Mem x ps × (x.online ≡ true) × (p ≡ probe_peer x.ip v)) ∥₁
unfolding probe_online
probe_online-mem v [] p m = absurd (not-mem-nil m)
probe_online-mem v (y ∷ ps) p m =
    let deeper : Mem p (probe_online v ps)
        → ∥ ((x : Peer) × Mem x (y ∷ ps) × (x.online ≡ true) × (p ≡ probe_peer x.ip v)) ∥₁ =
      λ l. ∥∥₁_map (probe_online-mem v ps p l) (λ t. (t.0, mem-cons_of_mem y t.1, t.2, t.3)) in
    elim (Bool-cases y.online) [
      | inl e ↦
          Or.elim squash₁ (mem-cons.0 (rw (e, probe_online) at m))
            (λ same. ∣ (y, mem-cons_self, e, same) ∣₁) deeper
      | inr e ↦ deeper (rw (e, probe_online) at m)
    ]

mem-probe_online :
    (v : GameVersion) (ps : List Peer) (x : Peer)
    → Mem x ps
    → x.online ≡ true
    → Mem (probe_peer x.ip v) (probe_online v ps)
unfolding probe_online
mem-probe_online v [] x m e = absurd (not-mem-nil m)
mem-probe_online v (y ∷ ps) x m e =
    Or.elim Mem-prop (mem-cons.0 m)
      (λ same.
        simp (ap (λ (p : Peer). p.online) (sym same) ∙ e)
          (mem-cast (ap (λ (p : Peer). probe_peer p.ip v) same) mem-cons_self))
      (λ later.
        let rest = mem-probe_online v ps x later e in
        elim (Bool-cases y.online) [
          | inl c ↦ simp c (mem-cons_of_mem (probe_peer y.ip v) rest)
          | inr c ↦ simp c rest
        ])

test_fails : (n : ℕ) → n ≢ 0 → (n == 0) ≡ false
test_fails n ne = ground arith

probes-Owed :
    (v : GameVersion) (ps : List Peer) (p : Probe)
    → Mem p (probe_local v ∷ probe_online v ps)
    → ∥ Owed v ps p ∥₁
probes-Owed v ps p m =
    Or.elim squash₁ (mem-cons.0 m) (λ e. ∣ local e ∣₁)
      (λ later. ∥∥₁_map (probe_online-mem v ps p later) (λ t. remote t.0 t.1 t.2 t.3))

Owed-probes :
    (v : GameVersion) (ps : List Peer) (p : Probe)
    → Owed v ps p
    → Mem p (probe_local v ∷ probe_online v ps)
Owed-probes v ps p (local e) = mem-cast e mem-cons_self
Owed-probes v ps p (remote x m online e) =
    mem-cons_of_mem (probe_local v) (mem-cast e (mem-probe_online v ps x m online))

-- With no version a manager sends nothing. With a version, it sends a search to this machine and
-- to each online peer that it knows, and to no other.
pub probe_all_peers_lem :
    (m : Manager)
    → (m.version.version ≡ 0 → probe_all_peers m ≡ [])
      × (m.version.version ≢ 0
          → (p : Probe) → Mem p (probe_all_peers m) ↔ ∥ Owed m.version m.peers p ∥₁)
unfolding probe_all_peers
probe_all_peers_lem m = (
  λ e. ground arith,
  λ ne p.
      rw (test_fails m.version.version ne) (
        probes-Owed m.version m.peers p,
        λ t. ∥∥₁_elim t Mem-prop (Owed-probes m.version m.peers p),
      ),
)

-- When a manager that has a version is told the peers of a network map, it knows them and asks
-- each of them for games at once: a search goes to this machine and to the address of each node
-- that is admitted as a peer, and nowhere else.
pub on_peers_changed_lem :
    (ns : List NodeView) (m : Manager)
    → m.version.version ≢ 0
    → ((on_peers_changed (extract_peers ns) m).0.peers ≡ extract_peers ns)
      × ((p : Probe)
          → Mem p (on_peers_changed (extract_peers ns) m).1
            ↔ ∥ (
                (p ≡ probe_local m.version)
                ⊎ ((n : NodeView) × (x : Peer) × Mem n ns
                    × Admits n x
                    × (p ≡ probe_peer x.ip m.version))) ∥₁)
unfolding on_peers_changed
on_peers_changed_lem ns m ne =
    let iff = (probe_all_peers_lem (record m { peers = extract_peers ns })).1 ne in
    (
      refl,
      λ p. (
        λ h. ∥∥₁_elim ((iff p).0 h) squash₁ (forth p),
        λ t. ∥∥₁_elim t Mem-prop (λ d. (iff p).1 ∣ back p d ∣₁),
      ),
    )
  where
    forth :
        (p : Probe)
        → Owed m.version (extract_peers ns) p
        → ∥ (
            (p ≡ probe_local m.version)
            ⊎ ((n : NodeView) × (x : Peer) × Mem n ns
                × Admits n x
                × (p ≡ probe_peer x.ip m.version))) ∥₁
    forth p (local e) = ∣ inl e ∣₁
    forth p (remote x h online e) =
        ∥∥₁_map ((mem-extract_peers_iff ns x).0 h) (λ t. inr (t.0, x, t.1, t.2, e))

    back :
        (p : Probe)
        → (p ≡ probe_local m.version)
          ⊎ ((n : NodeView) × (x : Peer) × Mem n ns × Admits n x × (p ≡ probe_peer x.ip m.version))
        → Owed m.version (extract_peers ns) p
    back p (inl e) = local e
    back p (inr (n, x, h, a, e)) =
        remote x ((mem-extract_peers_iff ns x).1 ∣ (n, h, a) ∣₁) a.is_online e
