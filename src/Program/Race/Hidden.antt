-- ===== src/Program/Race/Hidden.antt =====
-- peer/manager.go with tui/update.go: what a sort hides from the loops of the manager.
use mathlib.Core.List.{mem-cons, mem-cons_self, not-mem-nil, perm_middle}
use mathlib.Core.List.Perm
use mathlib.Core.Logic.Or
use wc3ts.Prelude.{
  ℕ, zero, suc, ◌+◌, ◌≤◌, ◌<◌, ◌≡◌, ◌≢◌, refl, sym, ap, subst, ◌∙◌, Bool, true, false, List, [],
  ◌∷◌, ◌++◌, none, some, Mem, Perm, All, holds-no, length, get_elem?, ltb, arith, inl, inr,
  Option-cases, Bool-cases, All-mono,
}
use wc3ts.Prelude.Walk.{perm_invariant}
use wc3ts.Net.{Addr, addr_discrete}
use wc3ts.Tailscale.{Peer}
use wc3ts.Sorting.{Sorter, Sorted}
use wc3ts.Peer.{Manager, name_of, find_peer_name}
use wc3ts.Program.Race.{
  Memory, find_from, copy_from, find_racing, copy_racing, sorted_after, sorted_after-perm,
  mem_of_get_elem?, copy_from-All,
}
use wc3ts.Tui.Rows.{os_less}
use wc3ts.Tui.Counts.{os_less-IsOrder}

length_of_get_elem? : {A : Type 0} (l : List A) (i : ℕ) → get_elem? l i ≡ none → length l ≤ i
length_of_get_elem? [] i e = omega arith
length_of_get_elem? (x ∷ l) zero e = cc
length_of_get_elem? (x ∷ l) (suc i) e = omega (arith, length_of_get_elem? l i e)

get_elem?-append :
    {A : Type 0} (l m : List A) (i : ℕ) → i < length l → get_elem? (l ++ m) i ≡ get_elem? l i
get_elem?-append [] m i less = absurd (omega arith)
get_elem?-append (x ∷ l) m zero less = refl
get_elem?-append (x ∷ l) m (suc i) less = get_elem?-append l m i (omega arith)

All-Mem :
    {A : Type 0} {P : A → Type 0} (a : A) (l : List A)
    → ((x : A) → IsProp (P x))
    → All P l
    → Mem a l
    → P a
All-Mem a [] prop h m = absurd (not-mem-nil m)
All-Mem {P = P} a (x ∷ l) prop h m =
    Or.elim (prop a) (mem-cons.0 m) (λ e. subst P (sym e) h.0) (All-Mem a l prop h.1)

length-perm : {A : Type 0} {l m : List A} → Perm l m → length l ≡ length m
length-perm {A = A} p =
    perm_invariant length (hlevel) (λ (a : A) (l m : List A) (e : length l ≡ length m). ap suc e)
      (λ (a b : A) (l : List A). refl) p

-- A slice that keeps its length is copied in full.
length-copy_from :
    (memory : Memory) (n i : ℕ)
    → ((j : ℕ) → length (memory j) ≡ i + n)
    → length (copy_from memory n i) ≡ n
unfolding copy_from
length-copy_from memory zero i long = refl
length-copy_from memory (suc n) i long =
    let rest = length-copy_from memory n (suc i) (λ j. long j ∙ omega arith) in
    elim (Option-cases (get_elem? (memory i) i)) [
      | inl e ↦
          let past = length_of_get_elem? (memory i) i e in absurd (omega (arith, past, long i))
      | inr (p, e) ↦ rw (e, copy_from) (ap suc rest)
    ]

-- An address that no read meets has no name.
find_from-misses :
    (memory : Memory) (ip : Addr)
    → ((i : ℕ) (p : Peer) → get_elem? (memory i) i ≡ some p → p.ip ≢ ip)
    → (n i : ℕ) → find_from memory n i ip ≡ []
unfolding find_from
find_from-misses memory ip misses zero i = refl
find_from-misses memory ip misses (suc n) i = elim (Option-cases (get_elem? (memory i) i)) [
  | inl e ↦ rw (e, find_from) (find_from-misses memory ip misses n (suc i))
  | inr (p, e) ↦
      rw (e, find_from, holds-no (addr_discrete p.ip ip) (misses i p e))
        (find_from-misses memory ip misses n (suc i))
]

-- Elements which the order puts behind one leave it at the head of what is sorted.
first_of_order :
    {A : Type 0} (less : A → A → Bool) (set : IsSet A) (q h : A) (others t : List A)
    → All (λ x. less q x ≡ true) others
    → Perm (h ∷ t) (q ∷ others)
    → Sorted less (h ∷ t)
    → h ≡ q
first_of_order less set q h others t behind perm sorted =
    Or.elim (set h q) (mem-cons.0 ((Perm.mem_iff perm).0 mem-cons_self)) (λ e. e)
      (λ m.
        let later : less q h ≡ true = All-Mem h others (λ x. hlevel) behind m in
        Or.elim (set h q) (mem-cons.0 ((Perm.mem_iff perm).1 mem-cons_self)) sym (λ r.
          let still : less q h ≡ false = All-Mem q t (λ x. hlevel) sorted.0 r in
          absurd (ground arith)))

-- The name of a peer whose address no peer before it has.
name_of-append :
    (before after : List Peer) (q : Peer)
    → All (λ x. x.ip ≢ q.ip) (before ++ after)
    → name_of (before ++ q ∷ after) q.ip ≡ q.name
unfolding name_of addr_discrete
name_of-append [] after q apart = ground arith
name_of-append (x ∷ before) after q apart =
    rw (holds-no (addr_discrete x.ip q.ip) apart.0) (name_of-append before after q apart.1)

-- A peer that the order puts before all others, and that is not among the first `k`.
module _ (sorter : Sorter Peer) (before after : List Peer) (q : Peer) (k : ℕ)
    (first : All (λ x. os_less q x ≡ true) (before ++ after)) (late : k ≤ length before)
    (begun : 1 ≤ k) where
  abbrev unsorted : List Peer
  unsorted = before ++ q ∷ after

  rest_of :
      (s : List Peer)
      → Perm s unsorted
      → Sorted os_less s
      → (i : ℕ) (p : Peer) → get_elem? s (suc i) ≡ some p
      → Mem p (before ++ after)
  rest_of [] perm sorted i p e = absurd (ground arith)
  rest_of (h ∷ t) perm sorted i p e =
      let moved : Perm (h ∷ t) (q ∷ (before ++ after)) =
        Perm.trans perm (perm_middle before after) in
      let head : h ≡ q =
        first_of_order os_less (hlevel) q h (before ++ after) t first moved sorted in
      let rest : Perm t (before ++ after) =
        Perm.cons_inv (subst (λ x. Perm (x ∷ t) (q ∷ (before ++ after))) head moved) in
      (Perm.mem_iff rest).0 (mem_of_get_elem? t i p e)

  read_early : (i : ℕ) (p : Peer) → i < k → get_elem? unsorted i ≡ some p → Mem p (before ++ after)
  read_early i p early e =
      let same : (l : List Peer) → get_elem? (before ++ l) i ≡ get_elem? before i =
        λ l. get_elem?-append before l i (omega arith) in
      mem_of_get_elem? (before ++ after) i p (same after ∙ sym (same (q ∷ after)) ∙ e)

  -- Each read is of another peer.
  reads_others :
      (i : ℕ) (p : Peer)
      → get_elem? (sorted_after sorter k unsorted i) i ≡ some p
      → Mem p (before ++ after)
  unfolding sorted_after
  reads_others zero p e = read_early zero p (omega arith) (ground arith)
  reads_others (suc i) p e = elim (Bool-cases (ltb (suc i) k)) [
    | inl yet ↦ read_early (suc i) p (ground arith) (ground arith)
    | inr past ↦
        rest_of (sorter.sort os_less unsorted) (sorter.sort-perm os_less unsorted)
          (sorter.sort-Sorted os_less unsorted os_less-IsOrder) i p (ground arith)
  ]

-- If the order of the interface puts a peer before all others, and no other has its address: a sort
-- that comes after the first step of a loop and before the loop has reached the peer hides it. Its
-- name, which is found without the sort, is not found; and as many peers are copied to be probed as
-- the manager has, but each of them is one of the others.
pub sort_hides :
    (sorter : Sorter Peer) (m : Manager) (before after : List Peer) (q : Peer) (k : ℕ)
    → m.peers ≡ before ++ q ∷ after
    → All (λ x. (x.ip ≢ q.ip) × (os_less q x ≡ true)) (before ++ after)
    → 1 ≤ k
    → k ≤ length before
    → (find_peer_name m q.ip ≡ q.name)
      × (find_racing (sorted_after sorter k m.peers) (length m.peers) q.ip ≡ [])
      × All
          (λ p. Mem p (before ++ after))
          (copy_racing (sorted_after sorter k m.peers) (length m.peers))
      × (length (copy_racing (sorted_after sorter k m.peers) (length m.peers)) ≡ length m.peers)
unfolding find_peer_name
sort_hides sorter m before after q k e others begun late =
    let memory = sorted_after sorter k m.peers in
    let apart : All (λ x. x.ip ≢ q.ip) (before ++ after) =
      All-mono (λ x h. h.0) (before ++ after) others in
    let first : All (λ x. os_less q x ≡ true) (before ++ after) =
      All-mono (λ x h. h.1) (before ++ after) others in
    let reads : (i : ℕ) (p : Peer) → get_elem? (memory i) i ≡ some p → Mem p (before ++ after) =
      λ i p r.
        reads_others sorter before after q k first late begun i p
          (subst (λ l. get_elem? (sorted_after sorter k l i) i ≡ some p) e r) in
    (
      ap (λ l. name_of l q.ip) e ∙ name_of-append before after q apart,
      find_from-misses memory q.ip
          (λ i p r. All-Mem p (before ++ after) (λ x. hlevel) apart (reads i p r)) (length m.peers)
          0,
      copy_from-All (λ p. Mem p (before ++ after)) memory reads (length m.peers) 0,
      length-copy_from memory (length m.peers) 0
          (λ j. length-perm (sorted_after-perm sorter k m.peers j) ∙ omega arith),
    )
