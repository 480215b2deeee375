-- ===== src/Program/Due.antt =====
-- cmd/wc3ts/run.go with tui/: the games and the peers that are on their way to the interface.
use wc3ts.Prelude.{
  ℕ, ◌≡◌, refl, sym, subst, true, List, [], ◌∷◌, ◌++◌, Perm, Bool-cases, inl, inr, ltb,
}
use mathlib.Core.List.Perm
use wc3ts.Game.{Game}
use wc3ts.Tailscale.{Peer}
use wc3ts.Sorting.{Sorter}
use wc3ts.Tui.{
  Tables, Model, Msg, peers_msg, games_msg, key_msg, window_size_msg, log_msg, port_msg, other_msg,
}
use wc3ts.Tui.Rows.{os_less}
use wc3ts.Tui.Update.{update, resize}
use wc3ts.Tui.Keys.{handle_key-Same}
use wc3ts.Program.{Incoming, message, quit_message, FromOutside, a_key, a_size, a_line, a_port}

-- The games that the interface has once it has received everything.
unfoldable pub due_games : List Incoming → List Game → List Game
due_games [] gs = gs
due_games (message (games_msg hs) ∷ rest) gs = due_games rest hs
due_games (_ ∷ rest) gs = due_games rest gs

unfoldable pub due_peers : List Incoming → List Peer → List Peer
due_peers [] ps = ps
due_peers (message (peers_msg qs) ∷ rest) ps = due_peers rest qs
due_peers (_ ∷ rest) ps = due_peers rest ps

pub due_games-append :
    (l m : List Incoming) (gs : List Game) → due_games (l ++ m) gs ≡ due_games m (due_games l gs)
unfolding due_games
due_games-append [] m gs = refl
due_games-append (message (games_msg hs) ∷ l) m gs = due_games-append l m hs
due_games-append (message (peers_msg qs) ∷ l) m gs = due_games-append l m gs
due_games-append (message (key_msg k s) ∷ l) m gs = due_games-append l m gs
due_games-append (message (window_size_msg w h) ∷ l) m gs = due_games-append l m gs
due_games-append (message (log_msg s) ∷ l) m gs = due_games-append l m gs
due_games-append (message (port_msg n) ∷ l) m gs = due_games-append l m gs
due_games-append (message other_msg ∷ l) m gs = due_games-append l m gs
due_games-append (quit_message ∷ l) m gs = due_games-append l m gs

pub due_peers-append :
    (l m : List Incoming) (ps : List Peer) → due_peers (l ++ m) ps ≡ due_peers m (due_peers l ps)
unfolding due_peers
due_peers-append [] m ps = refl
due_peers-append (message (games_msg hs) ∷ l) m ps = due_peers-append l m ps
due_peers-append (message (peers_msg qs) ∷ l) m ps = due_peers-append l m qs
due_peers-append (message (key_msg k s) ∷ l) m ps = due_peers-append l m ps
due_peers-append (message (window_size_msg w h) ∷ l) m ps = due_peers-append l m ps
due_peers-append (message (log_msg s) ∷ l) m ps = due_peers-append l m ps
due_peers-append (message (port_msg n) ∷ l) m ps = due_peers-append l m ps
due_peers-append (message other_msg ∷ l) m ps = due_peers-append l m ps
due_peers-append (quit_message ∷ l) m ps = due_peers-append l m ps

pub due_peers-perm :
    (l : List Incoming) (ps qs : List Peer) → Perm ps qs → Perm (due_peers l ps) (due_peers l qs)
unfolding due_peers
due_peers-perm [] ps qs h = h
due_peers-perm (message (games_msg hs) ∷ l) ps qs h = due_peers-perm l ps qs h
due_peers-perm (message (peers_msg rs) ∷ l) ps qs h = Perm.refl _
due_peers-perm (message (key_msg k s) ∷ l) ps qs h = due_peers-perm l ps qs h
due_peers-perm (message (window_size_msg w x) ∷ l) ps qs h = due_peers-perm l ps qs h
due_peers-perm (message (log_msg s) ∷ l) ps qs h = due_peers-perm l ps qs h
due_peers-perm (message (port_msg n) ∷ l) ps qs h = due_peers-perm l ps qs h
due_peers-perm (message other_msg ∷ l) ps qs h = due_peers-perm l ps qs h
due_peers-perm (quit_message ∷ l) ps qs h = due_peers-perm l ps qs h

-- What an update does to the games and the peers of the interface.
module _ (ops : Tables) where
  resize-lists :
      (n : ℕ) (m : Model ops)
      → ((resize ops n m).games ≡ m.games) × ((resize ops n m).peers ≡ m.peers)
  unfolding resize
  resize-lists n m = elim (Bool-cases (ltb 0 n)) [
    | inl e ↦ rw e (refl, refl)
    | inr e ↦ rw e (refl, refl)
  ]

  pub update-lists :
      (sorter : Sorter Peer) (msg : Msg) (m : Model ops)
      → ((update ops sorter msg m).0.games ≡ due_games (message msg ∷ []) m.games)
        × Perm (update ops sorter msg m).0.peers (due_peers (message msg ∷ []) m.peers)
  unfolding update due_games due_peers
  update-lists sorter (key_msg k s) m =
      let t = handle_key-Same ops sorter k s m in (t.same_games, t.same_peers)
  update-lists sorter (window_size_msg w h) m =
      let (g, p) = resize-lists _ (record m { width = w; height = h; ready = true }) in
      (g, subst (λ l. Perm l m.peers) (sym p) (Perm.refl m.peers))
  update-lists sorter (peers_msg qs) m = (refl, sorter.sort-perm os_less qs)
  update-lists sorter (games_msg hs) m = (refl, Perm.refl m.peers)
  update-lists sorter (log_msg s) m = (refl, Perm.refl m.peers)
  update-lists sorter (port_msg n) m = (refl, Perm.refl m.peers)
  update-lists sorter other_msg m = (refl, Perm.refl m.peers)

-- A message for the interface that brings neither games nor peers.
pub data Plain : Incoming → Type 0 where
  of_outside : (msg : Msg) → FromOutside msg → Plain (message msg)
  of_quit : Plain quit_message

pub due_games-Plain : {i : Incoming} → Plain i → (gs : List Game) → due_games (i ∷ []) gs ≡ gs
unfolding due_games
due_games-Plain (of_outside m (a_key k s)) gs = refl
due_games-Plain (of_outside m (a_size w h)) gs = refl
due_games-Plain (of_outside m (a_line s)) gs = refl
due_games-Plain (of_outside m (a_port n)) gs = refl
due_games-Plain of_quit gs = refl

pub due_peers-Plain : {i : Incoming} → Plain i → (ps : List Peer) → due_peers (i ∷ []) ps ≡ ps
unfolding due_peers
due_peers-Plain (of_outside m (a_key k s)) ps = refl
due_peers-Plain (of_outside m (a_size w h)) ps = refl
due_peers-Plain (of_outside m (a_line s)) ps = refl
due_peers-Plain (of_outside m (a_port n)) ps = refl
due_peers-Plain of_quit ps = refl
