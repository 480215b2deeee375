-- ===== src/Program/Owes.antt =====
-- cmd/wc3ts/run.go with tui/: the callbacks, and what is still to reach the interface.
use wc3ts.App
use wc3ts.App.{
  System, services, services_on, run_exec, App, AppEvent, version_chosen, refresh_chosen, app_step,
}
use wc3ts.App.Consistent.{Consistent, app_step-Consistent}
use wc3ts.Prelude.{
  ◌≡◌, refl, sym, ap, ◌∙◌, Bool, true, false, List, [], ◌∷◌, ◌++◌, Option, none, some, Bytes, Perm,
  subst, ℕ, map, append-nil,
}
use wc3ts.W3gs.{GameVersion, Decoder}
use wc3ts.Config.{Config}
use wc3ts.Peer.{refresh, set_version}
use wc3ts.Tui.{Tables, Effect, version_called, refresh_called, quit}
use wc3ts.Tui.Told.{told}
use wc3ts.Program.{
  Program, Incoming, quit_message, to_screen, serve, post, send_own, call_back, perform,
  FromService, a_line,
}
use wc3ts.Program.Due.{
  due_games, due_peers, due_games-append, due_peers-append, due_peers-perm, Plain, of_outside,
  of_quit, due_games-Plain, due_peers-Plain,
}
use wc3ts.Program.Service.{app_step-Served, to_screen-probes}

-- The interface has, or is still to receive, the games of the broadcaster and the peers of the
-- manager; once the callbacks in `effects` are called, the manager has the version that is shown.
pub record Owes {ops : Tables} (effects : List Effect) (p : Program ops) : Type 0 where
  pub version_cb : p.screen.version_cb ≡ true
  pub refresh_cb : p.screen.refresh_cb ≡ true
  pub version : p.screen.version ≡ told effects p.app.peer_manager.version
  pub product : p.app.peer_manager.version.product ≡ p.app.cfg.game_version.product
  pub games : due_games p.pending p.screen.games ≡ p.app.broadcaster.games
  pub peers : Perm (due_peers p.pending p.screen.peers) p.app.peer_manager.peers
  pub consistent : Consistent p.app

module _ {ops : Tables} where
  pub add-Plain :
      (i : Incoming) (effects : List Effect) (p : Program ops)
      → Plain i
      → Owes effects p
      → Owes effects (record p { pending = p.pending ++ i ∷ [] })
  add-Plain i effects p plain o = record {
    version_cb = o.version_cb;
    refresh_cb = o.refresh_cb;
    version = o.version;
    product = o.product;
    games = due_games-append p.pending (i ∷ []) p.screen.games ∙ due_games-Plain plain _ ∙ o.games;
    peers =
        subst (λ l. Perm l p.app.peer_manager.peers)
          (sym (due_peers-append p.pending (i ∷ []) p.screen.peers ∙ due_peers-Plain plain _))
          o.peers;
    consistent = o.consistent;
  }

  add_line :
      (o : Option Bytes) (effects : List Effect) (send_blocks : Bool) (p : Program ops)
      (decode : Decoder)
      → Owes effects p
      → Owes effects (send_own decode send_blocks o p)
  unfolding send_own post
  add_line none effects b p decode o = o
  add_line (some s) effects true p decode o = record {
    version_cb = o.version_cb;
    refresh_cb = o.refresh_cb;
    version = o.version;
    product = o.product;
    games = o.games;
    peers = o.peers;
    consistent = o.consistent;
  }
  add_line (some s) effects false p decode o = add-Plain _ effects p (of_outside _ (a_line s)) o

module _ {ops : Tables} (decode : Decoder) (send_blocks : Bool) where
  pub serve-Owes :
      (e : AppEvent) (effects : List Effect) (p : Program ops)
      → FromService e
      → Owes effects p
      → Owes effects (serve decode send_blocks e p)
  unfolding serve
  serve-Owes e effects p from o =
      let (a', outputs) = app_step decode e p.app in
      let s = app_step-Served decode e p.app from in
      record {
        version_cb = o.version_cb;
        refresh_cb = o.refresh_cb;
        version = o.version ∙ ap (told effects) (sym s.same_version);
        product =
            ap (λ (v : GameVersion). v.product) s.same_version
            ∙ o.product
            ∙ ap (λ (c : Config). c.game_version.product) (sym s.same_cfg);
        games =
            due_games-append p.pending (to_screen outputs) p.screen.games
            ∙ ap (due_games (to_screen outputs)) o.games
            ∙ s.sends_games;
        peers =
            subst (λ l. Perm l a'.peer_manager.peers)
              (sym (due_peers-append p.pending (to_screen outputs) p.screen.peers))
              (subst (Perm _) s.sends_peers (due_peers-perm (to_screen outputs) _ _ o.peers));
        consistent = app_step-Consistent decode e p.app o.consistent;
      }

  -- The callback of the version.
  choose-Owes :
      (v : ℕ) (effects : List Effect) (p : Program ops)
      → Owes (version_called v ∷ effects) p
      → Owes effects (serve decode send_blocks (version_chosen v) p)
  unfolding serve app_step told set_version to_screen
  choose-Owes v effects p o = record {
    version_cb = o.version_cb;
    refresh_cb = o.refresh_cb;
    version = o.version ∙ ap (λ x. told effects (record { product = x; version = v })) o.product;
    product = refl;
    games = ap (λ l. due_games l p.screen.games) (append-nil p.pending) ∙ o.games;
    peers =
        subst (λ l. Perm (due_peers l p.screen.peers) p.app.peer_manager.peers)
          (sym (append-nil p.pending)) o.peers;
    consistent = app_step-Consistent decode (version_chosen v) p.app o.consistent;
  }

  refresh-Owes :
      (effects : List Effect) (p : Program ops)
      → Owes (refresh_called ∷ effects) p
      → Owes effects (serve decode send_blocks refresh_chosen p)
  unfolding serve app_step told to_screen
  refresh-Owes effects p o =
      let none_sent : p.pending ++ to_screen (map App.probe (refresh p.app.peer_manager))
          ≡ p.pending =
        ap (λ l. p.pending ++ l) (to_screen-probes (refresh p.app.peer_manager))
        ∙ append-nil p.pending in
      record {
        version_cb = o.version_cb;
        refresh_cb = o.refresh_cb;
        version = o.version;
        product = o.product;
        games = ap (λ l. due_games l p.screen.games) none_sent ∙ o.games;
        peers =
            subst (λ l. Perm (due_peers l p.screen.peers) p.app.peer_manager.peers) (sym none_sent)
              o.peers;
        consistent = o.consistent;
      }

  pub perform-Owes :
      (time : Bytes) (effects : List Effect) (p : Program ops)
      → Owes effects p
      → Owes [] (perform decode send_blocks time effects p)
  unfolding perform call_back told
  perform-Owes time [] p o = o
  perform-Owes time (version_called v ∷ effects) p o =
      perform-Owes time effects _
        (add_line _ effects send_blocks _ decode (choose-Owes v effects p o))
  perform-Owes time (refresh_called ∷ effects) p o =
      perform-Owes time effects _
        (add_line _ effects send_blocks _ decode (refresh-Owes effects p o))
  perform-Owes time (quit ∷ effects) p o = perform-Owes time effects _ (
      add-Plain quit_message effects p of_quit (record {
        version_cb = o.version_cb;
        refresh_cb = o.refresh_cb;
        version = o.version;
        product = o.product;
        games = o.games;
        peers = o.peers;
        consistent = o.consistent;
      }))
