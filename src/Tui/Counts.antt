-- ===== src/Tui/Counts.antt =====
-- tui/update.go: the counts of games beside the peers.
use wc3ts.Prelude.{
  ℕ, suc, ◌+◌, ◌≡◌, refl, sym, ap, ◌∙◌, Bool, List, [], ◌∷◌, Bytes, bytes_discrete, arith, ite,
  Bool-cases, inl, inr, if◌then◌else◌,
}
use wc3ts.Prelude.Assoc.{Assoc, get, put, get-put}
use wc3ts.Net.{addr_text}
use wc3ts.Game.{Game, is_remote}
use wc3ts.Tailscale.{Peer}
use wc3ts.Version.{Info}
use wc3ts.Sorting.{IsOrder, Sorter, ascending-IsOrder}
use wc3ts.Tui.Rows.{count_at, count_games, game_counts, os_priority, os_less}
use wc3ts.Tui.{
  Tables, Model, Msg, peers_msg, key_msg, window_size_msg, games_msg, log_msg, port_msg, other_msg,
  new_model,
}
use wc3ts.Tui.Update.{update, run, resize}
use wc3ts.Tui.Keys.{handle_key-Same}
use wc3ts.W3gs.{GameVersion}

-- The number of remote games in a list that are hosted at an address.
unfoldable pub hosted : Bytes → List Game → ℕ
hosted ip [] = 0
hosted ip (g ∷ gs) =
    let rest = hosted ip gs in
    if is_remote g.source
    then ite (bytes_discrete (addr_text g.peer_ip) ip) (suc rest) rest
    else rest

count_at-put :
    (k j : Bytes) (n : ℕ) (m : Assoc Bytes ℕ)
    → count_at j (put bytes_discrete k n m) ≡ ite (bytes_discrete k j) n (count_at j m)
unfolding count_at
count_at-put k j n m = ground (arith, get-put bytes_discrete k j n m)

one_more :
    (k j : Bytes) (m : Assoc Bytes ℕ) (h : ℕ) (d : Dec (k ≡ j))
    → ite d (count_at k m + 1) (count_at j m) + h ≡ count_at j m + ite d (suc h) h
one_more k j m h (yes e) = omega (arith, ap (λ i. count_at i m) e)
one_more k j m h (no _) = refl

count_at-count_games :
    (k : Bytes) (gs : List Game) (m : Assoc Bytes ℕ)
    → count_at k (count_games gs m) ≡ count_at k m + hosted k gs
unfolding count_games hosted
count_at-count_games k [] m = omega arith
count_at-count_games k (g ∷ gs) m = elim (Bool-cases (is_remote g.source)) [
  | inr e ↦ rw e (count_at-count_games k gs m)
  | inl e ↦
      let ip = addr_text g.peer_ip in
      rw e (
        count_at-count_games k gs _
        ∙ ap (λ n. n + hosted k gs) (count_at-put ip k (count_at ip m + 1) m)
        ∙ one_more ip k m (hosted k gs) (bytes_discrete ip k))
]

count_at-game_counts : (k : Bytes) (gs : List Game) → count_at k (game_counts gs) ≡ hosted k gs
unfolding game_counts count_at get
count_at-game_counts k gs = count_at-count_games k gs [] ∙ omega arith

game_counts-nil : game_counts [] ≡ []
unfolding game_counts count_games
game_counts-nil = refl

pub os_less-IsOrder : IsOrder Peer os_less
unfolding os_less
os_less-IsOrder = ascending-IsOrder (λ p. os_priority p.os) (λ p. p.name)

module _ (ops : Tables) where
  run-counts :
      (msgs : List (Sorter Peer × Msg)) (m : Model ops)
      → m.peer_games ≡ game_counts m.games
      → (run ops msgs m).peer_games ≡ game_counts (run ops msgs m).games
  unfolding run update resize
  run-counts [] m e = e
  run-counts ((sorter, key_msg k s) ∷ rest) m e =
      let t = handle_key-Same ops sorter k s m in
      run-counts rest _ (t.same_counts ∙ e ∙ sym (ap game_counts t.same_games))
  run-counts ((sorter, window_size_msg width height) ∷ rest) m e = run-counts rest _ (ground arith)
  run-counts ((sorter, peers_msg peers) ∷ rest) m e = run-counts rest _ e
  run-counts ((sorter, games_msg games) ∷ rest) m e = run-counts rest _ refl
  run-counts ((sorter, log_msg s) ∷ rest) m e = run-counts rest _ e
  run-counts ((sorter, port_msg port) ∷ rest) m e = run-counts rest _ e
  run-counts ((sorter, other_msg) ∷ rest) m e = run-counts rest _ e

  -- After any messages, the count that is kept for each address is the number of remote games in the
  -- interface's list of games that are hosted there.
  pub count_at-run :
      (msgs : List (Sorter Peer × Msg)) (port : ℕ) (version : GameVersion) (build : Info)
      (v r : Bool) (k : Bytes)
      → count_at k (run ops msgs (new_model ops port version build v r)).peer_games
        ≡ hosted k (run ops msgs (new_model ops port version build v r)).games
  unfolding new_model
  count_at-run msgs port version build v r k =
      ap (count_at k) (run-counts msgs (new_model ops port version build v r) (sym game_counts-nil))
      ∙ count_at-game_counts k _
