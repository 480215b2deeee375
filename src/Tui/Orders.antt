-- ===== src/Tui/Orders.antt =====
-- tui/update.go: the orders of the peers, said without the comparisons of the code.
use wc3ts.Prelude.{
  ℕ, ◌<◌, ◌≡◌, ◌≢◌, ◌⊎◌, inl, inr, refl, ap, sym, ◌∙◌, codes, Bool, false, List, [], ◌∷◌, Bytes,
  bytes_discrete, ℕ_discrete, Perm, All, All-mono, arith, holds-cases,
}
use wc3ts.Prelude.Assoc.{Assoc}
use wc3ts.Text.{to_lower}
use wc3ts.Net.{addr_text}
use wc3ts.Tailscale.{Peer}
use wc3ts.Version.{Info}
use wc3ts.W3gs.{GameVersion}
use wc3ts.Sorting.{IsOrder, Sorter, Sorted, text_less, rank_less, descending-IsOrder}
use wc3ts.Tui.Rows.{count_at, os_priority, os_less, games_less}
use wc3ts.Tui.{
  Tables, Model, Msg, peers_msg, key_msg, key_other, view_mode_list, act, sort_peers_by_games,
  key_action, new_model,
}
use wc3ts.Tui.Update.{update, run, handle_key}
use wc3ts.Tui.Counts.{hosted, os_less-IsOrder, count_at-run}

-- Each element of a list is related to all that come after it.
abbrev pub Ordered : {A : Type 0} → (A → A → Type 0) → List A → Type 0
Ordered R [] = Unit
Ordered R (a ∷ l) = All (R a) l × Ordered R l

-- The groups of operating systems, and how they stand.
pub data OsGroup : Type 0 where
  windows mac another : OsGroup

pub data Runs (os : Bytes) : OsGroup → Type 0 where
  is_windows : to_lower os ≡ codes "windows" → Runs os windows
  is_macos : to_lower os ≡ codes "macos" → Runs os mac
  is_darwin : to_lower os ≡ codes "darwin" → Runs os mac
  is_another :
      to_lower os ≢ codes "windows"
      → to_lower os ≢ codes "macos"
      → to_lower os ≢ codes "darwin"
      → Runs os another

pub data Precedes : OsGroup → OsGroup → Type 0 where
  windows_mac : Precedes windows mac
  windows_another : Precedes windows another
  mac_another : Precedes mac another

-- A peer may stand before another: by its system, and by its name where they have the same.
pub record ByOs (a b : Peer) : Type 0 where
  pub system_a : OsGroup
  pub system_b : OsGroup
  pub runs_a : Runs a.os system_a
  pub runs_b : Runs b.os system_b
  pub in_order :
      Precedes system_a system_b ⊎ ((system_a ≡ system_b) × (text_less b.name a.name ≡ false))

-- And by the numbers of games that are hosted at the addresses, and then by name.
abbrev pub ByGames : (Bytes → ℕ) → Peer → Peer → Type 0
ByGames games a b =
    (games (addr_text b.ip) < games (addr_text a.ip))
    ⊎ ((games (addr_text b.ip) ≡ games (addr_text a.ip)) × (text_less b.name a.name ≡ false))

Sorted-Ordered :
    {A : Type 0} {R : A → A → Type 0} (less : A → A → Bool)
    → ((a b : A) → less b a ≡ false → R a b)
    → (l : List A) → Sorted less l
    → Ordered R l
Sorted-Ordered less sound [] h = tt
Sorted-Ordered less sound (a ∷ l) h = (All-mono (sound a) l h.0, Sorted-Ordered less sound l h.1)

-- The priority of each group.
abbrev rank : OsGroup → ℕ
rank windows = 0
rank mac = 1
rank another = 2

os_priority-rank : (os : Bytes) → (s : OsGroup) × Runs os s × (os_priority os ≡ rank s)
unfolding os_priority
os_priority-rank os = elim (holds-cases (bytes_discrete (to_lower os) (codes "windows"))) [
  | inl (e, h) ↦ (windows, is_windows e, ground arith)
  | inr (w, hw) ↦ elim (holds-cases (bytes_discrete (to_lower os) (codes "macos"))) [
    | inl (e, h) ↦ (mac, is_macos e, ground arith)
    | inr (m, hm) ↦ elim (holds-cases (bytes_discrete (to_lower os) (codes "darwin"))) [
      | inl (e, h) ↦ (mac, is_darwin e, ground arith)
      | inr (d, hd) ↦ (another, is_another w m d, ground arith)
    ]
  ]
]

rank_less-Precedes :
    (s t : OsGroup) (name_s name_t : Bytes)
    → rank_less (rank t) (rank s) name_t name_s ≡ false
    → Precedes s t ⊎ ((s ≡ t) × (text_less name_t name_s ≡ false))
unfolding rank_less
rank_less-Precedes windows windows m n e = inr (refl, e)
rank_less-Precedes windows mac m n e = inl windows_mac
rank_less-Precedes windows another m n e = inl windows_another
rank_less-Precedes mac windows m n e = cc
rank_less-Precedes mac mac m n e = inr (refl, e)
rank_less-Precedes mac another m n e = inl mac_another
rank_less-Precedes another windows m n e = cc
rank_less-Precedes another mac m n e = cc
rank_less-Precedes another another m n e = inr (refl, e)

os_less-ByOs : (a b : Peer) → os_less b a ≡ false → ByOs a b
unfolding os_less
os_less-ByOs a b e =
    let (s, runs_s, rank_s) = os_priority-rank a.os in
    let (t, runs_t, rank_t) = os_priority-rank b.os in
    record {
      system_a = s;
      system_b = t;
      runs_a = runs_s;
      runs_b = runs_t;
      in_order = rank_less-Precedes s t a.name b.name (
          sym (ap (λ k. rank_less k (rank s) b.name a.name) rank_t)
          ∙ sym (ap (λ k. rank_less (os_priority b.os) k b.name a.name) rank_s)
          ∙ e);
    }

games_less-IsOrder : (counts : Assoc Bytes ℕ) → IsOrder Peer (games_less counts)
unfolding games_less
games_less-IsOrder counts = descending-IsOrder (λ p. count_at (addr_text p.ip) counts) (λ p. p.name)

module _ (ops : Tables) where
  games_less-ByGames :
      (m : Model ops) (games : Bytes → ℕ)
      → ((k : Bytes) → count_at k m.peer_games ≡ games k)
      → (a b : Peer) → games_less m.peer_games b a ≡ false
      → ByGames games a b
  unfolding games_less rank_less
  games_less-ByGames m games counts a b e =
      let count_a = counts (addr_text a.ip) in
      let count_b = counts (addr_text b.ip) in ground (arith, count_a, count_b)

  sort_key_peers :
      (sorter : Sorter Peer) (m : Model ops)
      → m.view_mode ≡ view_mode_list
      → (update ops sorter (key_msg key_other (codes "s")) m).0.peers
        ≡ sorter.sort (games_less m.peer_games) m.peers
  unfolding update handle_key act sort_peers_by_games key_action bytes_discrete ℕ_discrete
  sort_key_peers sorter m e = rw e refl

  -- What the peers are, and how they stand, once the message `msg` has come.
  abbrev pub Stands : Sorter Peer → Msg → Model ops → List Peer → (Peer → Peer → Type 0) → Type 0
  Stands sorter msg m peers R =
      Perm (update ops sorter msg m).0.peers peers × Ordered R (update ops sorter msg m).0.peers

  -- When peers arrive, the interface has these peers, those with Windows before those with macOS and
  -- these before all others, and each group by name. When, after any messages, the key `s` is pressed
  -- in the list view, it has the same peers as before, those at whose address it knows of more
  -- remote games first, and peers with as many by name.
  pub update-Sorted :
      (sorter : Sorter Peer) (peers : List Peer) (before : Model ops)
      (msgs : List (Sorter Peer × Msg)) (port : ℕ) (version : GameVersion) (build : Info)
      (v r : Bool)
      → (run ops msgs (new_model ops port version build v r)).view_mode ≡ view_mode_list
      → let m = run ops msgs (new_model ops port version build v r) in
        Stands sorter (peers_msg peers) before peers ByOs
        × Stands sorter (key_msg key_other (codes "s")) m m.peers (ByGames (λ k. hosted k m.games))
  unfolding update os_less
  update-Sorted sorter peers before msgs port version build v r listing =
      let m = run ops msgs (new_model ops port version build v r) in
      let by_games = games_less m.peer_games in
      (
        (
          sorter.sort-perm os_less peers,
          Sorted-Ordered os_less os_less-ByOs _ (sorter.sort-Sorted os_less peers os_less-IsOrder),
        ),
        rw (sort_key_peers sorter m listing) (
          sorter.sort-perm by_games m.peers,
          Sorted-Ordered by_games
              (games_less-ByGames m (λ k. hosted k m.games)
                (count_at-run ops msgs port version build v r))
              _ (sorter.sort-Sorted by_games m.peers (games_less-IsOrder m.peer_games)),
        ),
      )
