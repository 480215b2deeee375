-- ===== src/Program/Race.antt =====
-- peer/manager.go with tui/update.go: the discovery hands one slice of peers to the manager and to
-- the interface, which sorts it in place. The manager's lock does not keep the interface out, so
-- that the order may change between two steps of a loop of the manager. A read takes an element
-- whole here; for a race Go promises less.
pub mod Hidden
use mathlib.Core.List.{mem-cons, mem-cons_self, mem-cons_of_mem, mem-cast, not-mem-nil}
use mathlib.Core.List.Perm
use mathlib.Core.Logic.Or
use wc3ts.Prelude.{
  ℕ, zero, suc, ◌+◌, ◌≡◌, ◌≢◌, ◌↔◌, refl, sym, ap, ◌∙◌, true, false, List, [], ◌∷◌, none, some,
  Bytes, Mem, Perm, All, holds, holds-no, length, get_elem?, ltb, arith, inl, inr, ◌⊎◌,
  Option-cases, Bool-cases, if◌then◌else◌,
}
use wc3ts.Prelude.Walk.{perm_invariant}
use wc3ts.Net.{Addr, addr_discrete}
use wc3ts.Tailscale.{Peer}
use wc3ts.Sorting.{Sorter, Sorted}
use wc3ts.Peer.{Manager, name_of, find_peer_name}
use wc3ts.Tui.Rows.{os_less}
use wc3ts.Tui.Counts.{os_less-IsOrder}

-- The slice as it is at each step of a loop.
abbrev pub Memory : Type 0
Memory = ℕ → List Peer

-- The loop of `findPeerName` with `n` steps left, at the index `i`. The length is taken once.
pub find_from : Memory → ℕ → ℕ → Addr → Bytes
unfolding addr_discrete
find_from memory zero i ip = []
find_from memory (suc n) i ip =
    let rest = find_from memory n (suc i) ip in
    elim (get_elem? (memory i) i) [
      | none ↦ rest
      | some p ↦ if holds (addr_discrete p.ip ip) then p.name else rest
    ]

-- `copy` in `probeAllPeers`
pub copy_from : Memory → ℕ → ℕ → List Peer
copy_from memory zero i = []
copy_from memory (suc n) i = elim (get_elem? (memory i) i) [
  | none ↦ copy_from memory n (suc i)
  | some p ↦ p ∷ copy_from memory n (suc i)
]

-- `findPeerName` and the copy, for a slice with `n` elements
abbrev pub find_racing : Memory → ℕ → Addr → Bytes
find_racing memory n = find_from memory n 0

abbrev pub copy_racing : Memory → ℕ → List Peer
copy_racing memory n = copy_from memory n 0

-- A slice that is sorted, as `sortPeersByOS` does it, after `k` steps of the loop.
pub sorted_after : Sorter Peer → ℕ → List Peer → Memory
unfolding os_less
sorted_after sorter k peers i = if ltb i k then peers else sorter.sort os_less peers

pub sorted_after-perm :
    (sorter : Sorter Peer) (k : ℕ) (peers : List Peer) (i : ℕ)
    → Perm (sorted_after sorter k peers i) peers
unfolding sorted_after
sorted_after-perm sorter k peers i = elim (Bool-cases (ltb i k)) [
  | inl e ↦ rw e (Perm.refl peers)
  | inr e ↦ rw e (sorter.sort-perm os_less peers)
]

-- The name is empty or that of one of the peers with the address.
abbrev pub Names : Bytes → Addr → List Peer → Type 0
Names name ip peers = (name ≡ []) ⊎ ((p : Peer) × Mem p peers × (p.ip ≡ ip) × (name ≡ p.name))

pub mem_of_get_elem? : {A : Type 0} (l : List A) (i : ℕ) (a : A) → get_elem? l i ≡ some a → Mem a l
mem_of_get_elem? [] i a e = cc
mem_of_get_elem? (x ∷ l) zero a e = mem-cast (ground arith) mem-cons_self
mem_of_get_elem? (x ∷ l) (suc i) a e = mem-cons_of_mem x (mem_of_get_elem? l i a e)

-- What stays in its place is found as `find_peer_name` finds it.
find_from-still :
    (peers l : List Peer) (i : ℕ) (ip : Addr)
    → ((j : ℕ) → get_elem? peers (i + j) ≡ get_elem? l j)
    → find_from (λ _. peers) (length l) i ip ≡ name_of l ip
unfolding find_from name_of
find_from-still peers [] i ip same = refl
find_from-still peers (p ∷ l) i ip same =
    let here : get_elem? peers i ≡ some p = ap (get_elem? peers) (omega arith) ∙ same 0 in
    let rest =
      find_from-still peers l (suc i) ip (λ j. ap (get_elem? peers) (omega arith) ∙ same (suc j)) in
    ground (arith, here, rest)

-- What the copy takes satisfies what every read does.
pub copy_from-All :
    (P : Peer → Type 0) (memory : Memory)
    → ((i : ℕ) (p : Peer) → get_elem? (memory i) i ≡ some p → P p)
    → (n i : ℕ) → All P (copy_from memory n i)
unfolding copy_from
copy_from-All P memory reads zero i = tt
copy_from-All P memory reads (suc n) i = elim (Option-cases (get_elem? (memory i) i)) [
  | inl e ↦ rw (e, copy_from) (copy_from-All P memory reads n (suc i))
  | inr (p, e) ↦ rw (e, copy_from) (reads i p e, copy_from-All P memory reads n (suc i))
]

module _ (memory : Memory) (peers : List Peer) (same : (i : ℕ) → Perm (memory i) peers) where
  mem_of_read : (i : ℕ) (p : Peer) → get_elem? (memory i) i ≡ some p → Mem p peers
  mem_of_read i p e = (Perm.mem_iff (same i)).0 (mem_of_get_elem? (memory i) i p e)

  find_from-Names : (n i : ℕ) (ip : Addr) → Names (find_from memory n i ip) ip peers
  unfolding find_from
  find_from-Names zero i ip = inl refl
  find_from-Names (suc n) i ip = elim (Option-cases (get_elem? (memory i) i)) [
    | inl e ↦ rw (e, find_from) (find_from-Names n (suc i) ip)
    | inr (p, e) ↦ elim (addr_discrete p.ip ip) [
      | yes hit ↦ inr (p, mem_of_read i p e, hit, ground (arith, find_from))
      | no miss ↦
          rw (e, find_from, holds-no (addr_discrete p.ip ip) miss) (find_from-Names n (suc i) ip)
    ]
  ]

-- Whatever the interface does to the order of the peers while the manager reads them: the name that
-- is found for an address is empty or that of one of the peers with the address, and the peers that
-- are copied to be probed are peers of the list. If the order stays as it is, the name is the one of
-- `find_peer_name`.
pub racing-Names :
    (m : Manager) (memory : Memory) (ip : Addr)
    → ((i : ℕ) → Perm (memory i) m.peers)
    → Names (find_racing memory (length m.peers) ip) ip m.peers
      × All (λ p. Mem p m.peers) (copy_racing memory (length m.peers))
      × (find_racing (λ _. m.peers) (length m.peers) ip ≡ find_peer_name m ip)
unfolding find_peer_name
racing-Names m memory ip same = (
  find_from-Names memory m.peers same (length m.peers) 0 ip,
  copy_from-All (λ p. Mem p m.peers) memory (mem_of_read memory m.peers same) (length m.peers) 0,
  find_from-still m.peers m.peers 0 ip (λ j. ap (get_elem? m.peers) (omega arith)),
)
