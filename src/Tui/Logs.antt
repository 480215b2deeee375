-- ===== src/Tui/Logs.antt =====
-- tui/update.go: the lines of the log.
use wc3ts.Prelude.{
  ℕ, zero, suc, ◌+◌, ◌-◌, ◌≤◌, ◌≡◌, Bool, refl, sym, ap, ◌∙◌, List, [], ◌∷◌, ◌++◌, Bytes, length,
  drop, length-append, length-drop, append_assoc, append-nil, arith, ltb, Bool-cases, inl, inr,
}
use wc3ts.Tailscale.{Peer}
use wc3ts.Version.{Info}
use wc3ts.Sorting.{Sorter}
use wc3ts.Tui.{
  Tables, Model, Msg, log_msg, key_msg, window_size_msg, peers_msg, games_msg, port_msg, other_msg,
  new_model,
}
use wc3ts.Tui.Update.{keep_last, update, run, resize}
use wc3ts.Tui.Keys.{handle_key-Same}
use wc3ts.W3gs.{GameVersion}

-- The last ten lines of a list.
abbrev pub last_lines : List Bytes → List Bytes
last_lines l = drop (length l - 10) l

module _ {A : Type 0} where
  drop-nil : (m : ℕ) → drop {A = A} m [] ≡ []
  drop-nil zero = refl
  drop-nil (suc m) = refl

  pub drop-drop : (m n k : ℕ) (l : List A) → k ≡ n + m → drop m (drop n l) ≡ drop k l
  drop-drop m zero k l h = ap (λ i. drop i l) (omega arith)
  drop-drop m (suc n) zero l h = absurd (omega arith)
  drop-drop m (suc n) (suc k) [] h = drop-nil m
  drop-drop m (suc n) (suc k) (x ∷ l) h = drop-drop m n k l (omega arith)

  drop-append : (n : ℕ) (l r : List A) → n ≤ length l → drop n (l ++ r) ≡ drop n l ++ r
  drop-append zero l r h = refl
  drop-append (suc n) [] r h = absurd (omega arith)
  drop-append (suc n) (x ∷ l) r h = drop-append n l r (omega arith)

-- A line that is added to the window, and the window of the lines with it.
keep_last-last_lines :
    (l : List Bytes) (x : Bytes) → keep_last (last_lines l ++ x ∷ []) ≡ last_lines (l ++ x ∷ [])
unfolding keep_last
keep_last-last_lines l x =
    let all : List Bytes = l ++ x ∷ [] in
    let longer : length all ≡ length l + 1 = length-append l (x ∷ []) in
    let window : drop (length l - 10) l ++ x ∷ [] ≡ drop (length l - 10) all =
      sym (drop-append (length l - 10) l (x ∷ []) (omega arith)) in
    let size : length (drop (length l - 10) all) ≡ length all - (length l - 10) =
      length-drop (length l - 10) all in
    ap keep_last window ∙ elim (Bool-cases (ltb 10 (length (drop (length l - 10) all)))) [
      | inl more ↦
          rw (more, keep_last)
            (drop-drop _ (length l - 10) (length all - 10) all (ground (arith, size, longer, more)))
      | inr fits ↦ rw (fits, keep_last) (ap (λ i. drop i all) (ground (arith, size, longer, fits)))
    ]

pub log_lines : List (Sorter Peer × Msg) → List Bytes
log_lines [] = []
log_lines ((sorter, log_msg s) ∷ rest) = s ∷ log_lines rest
log_lines ((sorter, _) ∷ rest) = log_lines rest

module _ (ops : Tables) where
  logs-run :
      (msgs : List (Sorter Peer × Msg)) (m : Model ops) (all : List Bytes)
      → m.logs ≡ last_lines all
      → (run ops msgs m).logs ≡ last_lines (all ++ log_lines msgs)
  unfolding run update log_lines resize
  logs-run [] m all e = rw (append-nil all) e
  logs-run ((sorter, log_msg s) ∷ rest) m all e =
      let step : keep_last (m.logs ++ s ∷ []) ≡ last_lines (all ++ s ∷ []) =
        ap (λ l. keep_last (l ++ s ∷ [])) e ∙ keep_last-last_lines all s in
      logs-run rest _ (all ++ s ∷ []) step
      ∙ ap last_lines (append_assoc all (s ∷ []) (log_lines rest))
  logs-run ((sorter, key_msg k s) ∷ rest) m all e =
      logs-run rest _ all ((handle_key-Same ops sorter k s m).same_logs ∙ e)
  logs-run ((sorter, window_size_msg width height) ∷ rest) m all e =
      logs-run rest _ all (ground arith)
  logs-run ((sorter, peers_msg peers) ∷ rest) m all e = logs-run rest _ all e
  logs-run ((sorter, games_msg games) ∷ rest) m all e = logs-run rest _ all e
  logs-run ((sorter, port_msg port) ∷ rest) m all e = logs-run rest _ all e
  logs-run ((sorter, other_msg) ∷ rest) m all e = logs-run rest _ all e

  -- After any messages, the log that is shown has the last ten lines that were logged, in order; or
  -- all of them, if they are fewer.
  pub run-last_lines :
      (msgs : List (Sorter Peer × Msg)) (port : ℕ) (version : GameVersion) (build : Info)
      (v r : Bool)
      → (run ops msgs (new_model ops port version build v r)).logs ≡ last_lines (log_lines msgs)
  unfolding new_model
  run-last_lines msgs port version build v r = logs-run msgs _ [] refl
