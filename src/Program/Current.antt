-- ===== src/Program/Current.antt =====
-- cmd/wc3ts/run.go with tui/: what the interface shows, and what the services have.
use wc3ts.App.{System, services, services_on, run_exec, App}
use wc3ts.App.Consistent.{started, first-started, services_on-Consistent}
use wc3ts.Lan.{new_broadcaster}
use wc3ts.Prelude.Assoc.{values}
use wc3ts.Version.{Info}
use wc3ts.Prelude.{◌≡◌, refl, sym, ap, ◌∙◌, Bool, true, List, [], ◌∷◌, Bytes, Perm, subst, ℕ}
use mathlib.Core.List.Perm
use wc3ts.W3gs.{Decoder}
use wc3ts.Config.{Config}
use wc3ts.Tailscale.{Peer}
use wc3ts.Peer.{set_version}
use wc3ts.Sorting.{Sorter}
use wc3ts.Tui.{Tables, new_model}
use wc3ts.Tui.Update.{update}
use wc3ts.Tui.Told.{told, update-Tracked}
use wc3ts.Program.{
  Program, Incoming, message, quit_message, Loop, receiving, blocked, ended, post, take_message,
  receive_in, receive_next, Step, serves, posts, set_ready, receives, Reaches, at_start, then_step,
  start_program,
}
use wc3ts.Program.Due.{
  due_games, due_peers, due_games-append, due_peers-append, due_peers-perm, of_outside,
  update-lists,
}
use wc3ts.Program.Owes.{Owes, add-Plain, serve-Owes, perform-Owes}

-- The services and the interface agree.
pub record Current {ops : Tables} (q : Program ops) : Type 0 where
  pub same_version : q.screen.version ≡ q.app.peer_manager.version
  pub same_games : q.pending ≡ [] → Perm q.screen.games (values q.app.registry.games)
  pub same_peers : q.pending ≡ [] → Perm q.screen.peers q.app.discovery.peers

module _ {ops : Tables} (decode : Decoder) (send_blocks : Bool) where
  take-Owes :
      (sorter : Sorter Peer) (time : Bytes) (l : List Incoming) (p : Program ops)
      → p.pending ≡ l
      → Owes [] p
      → Owes [] (take_message decode send_blocks sorter time l p)
  unfolding take_message told due_games due_peers
  take-Owes sorter time [] p e o = o
  take-Owes sorter time (quit_message ∷ rest) p e o = record {
    version_cb = o.version_cb;
    refresh_cb = o.refresh_cb;
    version = o.version;
    product = o.product;
    games = ap (λ l. due_games l p.screen.games) (sym e) ∙ o.games;
    peers = subst (λ l. Perm (due_peers l p.screen.peers) p.app.peer_manager.peers) e o.peers;
    consistent = o.consistent;
  }
  take-Owes sorter time (message msg ∷ rest) p e o =
      let t = update-Tracked ops sorter msg p.screen o.version_cb in
      let (games, peers) = update-lists ops sorter msg p.screen in
      perform-Owes decode send_blocks time (update ops sorter msg p.screen).1 _ (record {
        version_cb = t.same_version_cb ∙ o.version_cb;
        refresh_cb = t.same_refresh_cb ∙ o.refresh_cb;
        version = t.tells ∙ ap (told (update ops sorter msg p.screen).1) o.version;
        product = o.product;
        games =
            ap (due_games rest) games
            ∙ sym (due_games-append (message msg ∷ []) rest p.screen.games)
            ∙ ap (λ l. due_games l p.screen.games) (sym e)
            ∙ o.games;
        peers = Perm.trans (due_peers-perm rest _ _ peers) (
            subst (λ l. Perm l p.app.peer_manager.peers)
              (ap (λ l. due_peers l p.screen.peers) e
                ∙ due_peers-append (message msg ∷ []) rest p.screen.peers)
              o.peers);
        consistent = o.consistent;
      })

  receive-Owes :
      (sorter : Sorter Peer) (time : Bytes) (l : Loop) (p : Program ops)
      → Owes [] p
      → Owes [] (receive_in decode send_blocks sorter time l p)
  unfolding receive_in
  receive-Owes sorter time receiving p o = take-Owes sorter time p.pending p refl o
  receive-Owes sorter time blocked p o = o
  receive-Owes sorter time ended p o = o

  Step-Owes : (p q : Program ops) → Step decode send_blocks p q → Owes [] p → Owes [] q
  unfolding post receive_next
  Step-Owes p q (serves e from) o = serve-Owes decode send_blocks e [] p from o
  Step-Owes p q (posts msg out) o = add-Plain (message msg) [] p (of_outside msg out) o
  Step-Owes p q set_ready o = record {
    version_cb = o.version_cb;
    refresh_cb = o.refresh_cb;
    version = o.version;
    product = o.product;
    games = o.games;
    peers = o.peers;
    consistent = o.consistent;
  }
  Step-Owes p q (receives sorter time) o = receive-Owes sorter time p.loop p o

  Reaches-Owes : (p q : Program ops) → Reaches decode send_blocks p q → Owes [] p → Owes [] q
  Reaches-Owes p q at_start o = o
  Reaches-Owes p q (then_step r _ before step) o = Step-Owes r q step (Reaches-Owes p r before o)

  -- The program as it starts.
  start-Owes :
      (build : Info) (a : App) (cfg : Config) (sys : System) (port : ℕ)
      → started cfg sys port ≡ a
      → Owes {ops = ops} [] (start_program build a)
  unfolding start_program new_model due_games due_peers told
  start-Owes build a cfg sys port e =
      subst (λ x. Owes {ops = ops} [] (start_program build x)) e
        (record {
          version_cb = refl;
          refresh_cb = refl;
          version = unfold services_on set_version in refl;
          product = unfold services_on set_version in refl;
          games = unfold services_on new_broadcaster in refl;
          peers = unfold services_on set_version in Perm.refl [];
          consistent = services_on-Consistent cfg sys port;
        })

  started-Owes :
      (product : Bytes) (version : ℕ) (sys : System) (build : Info) (a : App) (q : Program ops)
      → run_exec product version sys ≡ services a
      → Reaches decode send_blocks (start_program build a) q
      → Owes [] q
  started-Owes product version sys build a q starts reaches =
      let (cfg, port, e) = first-started product version sys a starts in
      Reaches-Owes _ q reaches (start-Owes build a cfg sys port e)

  pub Reaches-callbacks :
      (product : Bytes) (version : ℕ) (sys : System) (build : Info) (a : App) (q : Program ops)
      → run_exec product version sys ≡ services a
      → Reaches decode send_blocks (start_program build a) q
      → (q.screen.version_cb ≡ true) × (q.screen.refresh_cb ≡ true)
  Reaches-callbacks product version sys build a q starts reaches =
      let o = started-Owes product version sys build a q starts reaches in
      (o.version_cb, o.refresh_cb)

  -- In a program that has started, after any steps of the services, the keyboard and the event loop,
  -- in any order: the peers are asked with the version that the interface shows; and when no message
  -- is under way, the interface has the games of the registry and the peers of the discovery, each in
  -- some order.
  pub Reaches-Current :
      (product : Bytes) (version : ℕ) (sys : System) (build : Info) (a : App) (q : Program ops)
      → run_exec product version sys ≡ services a
      → Reaches decode send_blocks (start_program build a) q
      → Current q
  unfolding told
  Reaches-Current product version sys build a q starts reaches =
      let o = started-Owes product version sys build a q starts reaches in
      record {
        same_version = o.version;
        same_games = λ none_due.
            subst (λ l. Perm l (values q.app.registry.games))
              (sym o.games
                ∙ ap (λ l. due_games l q.screen.games) none_due
                ∙ unfold due_games in refl)
              o.consistent.same_games;
        same_peers = λ none_due. subst (Perm q.screen.peers) o.consistent.same_peers (
            subst (λ l. Perm l q.app.peer_manager.peers)
              (ap (λ l. due_peers l q.screen.peers) none_due ∙ unfold due_peers in refl) o.peers);
      }
