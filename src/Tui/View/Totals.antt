-- ===== src/Tui/View/Totals.antt =====
-- tui/view.go and tui/update.go: the numbers in the status line.
use wc3ts.Prelude.{
  ℕ, ◌≡◌, refl, ap, ◌∙◌, Bool, List, [], ◌∷◌, Perm, length, keep, arith, not, ltb, Bool-cases, inl,
  inr,
}
use wc3ts.Prelude.Walk.{perm_invariant}
use mathlib.Core.List.Perm
use wc3ts.W3gs.{GameVersion}
use wc3ts.Game.{Game, Source, source_local, source_remote, is_local, is_remote}
use wc3ts.Tailscale.{Peer}
use wc3ts.Version.{Info}
use wc3ts.Sorting.{Sorter}
use wc3ts.Tui.{
  Tables, Model, Msg, peers_msg, key_msg, window_size_msg, games_msg, log_msg, port_msg, other_msg,
  new_model,
}
use wc3ts.Tui.Rows.{os_less}
use wc3ts.Tui.Update.{update, run, resize}
use wc3ts.Tui.Keys.{handle_key-Same}
use wc3ts.Tui.View.Style.{Renderer}
use wc3ts.Tui.View.{online_peers, tally_games, status_text, status_bar}

abbrev Sent : Type 0
Sent = List (Sorter Peer × Msg)

-- What a list of messages brings last of each kind, or what there was if it brings nothing.
unfoldable pub last_port : Sent → ℕ → ℕ
last_port [] p = p
last_port ((_, port_msg q) ∷ rest) p = last_port rest q
last_port (_ ∷ rest) p = last_port rest p

unfoldable pub last_peers : Sent → List Peer → List Peer
last_peers [] ps = ps
last_peers ((_, peers_msg qs) ∷ rest) ps = last_peers rest qs
last_peers (_ ∷ rest) ps = last_peers rest ps

unfoldable pub last_games : Sent → List Game → List Game
last_games [] gs = gs
last_games ((_, games_msg hs) ∷ rest) gs = last_games rest hs
last_games (_ ∷ rest) gs = last_games rest gs

online_peers-perm : {l m : List Peer} → Perm l m → online_peers l ≡ online_peers m
unfolding online_peers
online_peers-perm =
    perm_invariant online_peers (hlevel) (λ p l m e. ground (arith, e)) (λ p q l. ground arith)

is_local-remote : (s : Source) → is_remote s ≡ not (is_local s)
is_local-remote source_local = refl
is_local-remote source_remote = refl

tally_games-keep :
    (gs : List Game)
    → (tally_games gs
        ≡ (length (keep (λ g. is_local g.source) gs), length (keep (λ g. is_remote g.source) gs)))
unfolding tally_games
tally_games-keep [] = refl
tally_games-keep (g ∷ gs) = ground (arith, is_local-remote g.source, tally_games-keep gs)

-- The port, the peers but for their order, and the games are the given ones.
record Given (port : ℕ) (peers : List Peer) (games : List Game) (port' : ℕ) (peers' : List Peer)
    (games' : List Game) : Type 0 where
  pub of_port : port' ≡ port
  pub of_peers : Perm peers' peers
  pub of_games : games' ≡ games

module _ (ops : Tables) where
  abbrev Current : ℕ → List Peer → List Game → Model ops → Type 0
  Current port peers games m = Given port peers games m.proxy_port m.peers m.games

  resize-Current :
      (n : ℕ) (m : Model ops) (port : ℕ) (peers : List Peer) (games : List Game)
      → Current port peers games m
      → Current port peers games (resize ops n m)
  unfolding resize
  resize-Current n m port peers games c = elim (Bool-cases (ltb 0 n)) [
    | inl e ↦ rw e c
    | inr e ↦ rw e c
  ]

  run-Current :
      (msgs : Sent) (m : Model ops) (port : ℕ) (peers : List Peer) (games : List Game)
      → Current port peers games m
      → Current
          (last_port msgs port)
          (last_peers msgs peers)
          (last_games msgs games)
          (run ops msgs m)
  unfolding run update last_port last_peers last_games
  run-Current [] m port peers games c = c
  run-Current ((sorter, key_msg k s) ∷ rest) m port peers games c =
      let t = handle_key-Same ops sorter k s m in
      run-Current rest _ port peers games (record {
        of_port = t.same_port ∙ c.of_port;
        of_peers = Perm.trans t.same_peers c.of_peers;
        of_games = t.same_games ∙ c.of_games;
      })
  run-Current ((sorter, window_size_msg width height) ∷ rest) m port peers games c =
      run-Current rest _ port peers games (resize-Current _ _ port peers games c)
  run-Current ((sorter, peers_msg qs) ∷ rest) m port peers games c =
      run-Current rest _ port qs games (record {
        of_port = c.of_port;
        of_peers = sorter.sort-perm os_less qs;
        of_games = c.of_games;
      })
  run-Current ((sorter, games_msg hs) ∷ rest) m port peers games c =
      run-Current rest _ port peers hs
        (record { of_port = c.of_port; of_peers = c.of_peers; of_games = refl })
  run-Current ((sorter, port_msg q) ∷ rest) m port peers games c =
      run-Current rest _ q peers games
        (record { of_port = refl; of_peers = c.of_peers; of_games = c.of_games })
  run-Current ((sorter, log_msg s) ∷ rest) m port peers games c =
      run-Current rest _ port peers games c
  run-Current ((sorter, other_msg) ∷ rest) m port peers games c =
      run-Current rest _ port peers games c

  -- After any messages, the status line has the port that was sent last, the number of peers of the
  -- last list of peers that are online, and the numbers of local and of remote games of the last list
  -- of games.
  pub status_bar-run :
      (r : Renderer ops) (msgs : Sent) (port : ℕ) (version : GameVersion) (build : Info)
      (v c : Bool)
      → let games = last_games msgs [] in
        status_bar r (run ops msgs (new_model ops port version build v c))
        ≡ status_text (last_port msgs port) (online_peers (last_peers msgs [])) (
          length (keep (λ g. is_local g.source) games),
          length (keep (λ g. is_remote g.source) games),
        )
  unfolding status_bar new_model
  status_bar-run r msgs port version build v c =
      let start = new_model ops port version build v c in
      let given : Current (last_port msgs port) (last_peers msgs []) (last_games msgs [])
          (run ops msgs start) =
        run-Current msgs start port [] []
          (record { of_port = refl; of_peers = Perm.refl []; of_games = refl }) in
      let tallied = ap tally_games given.of_games ∙ tally_games-keep (last_games msgs []) in
      rw (given.of_port, online_peers-perm given.of_peers, tallied) refl
