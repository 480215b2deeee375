-- ===== src/Network/Started.antt =====
-- cmd/wc3ts/run.go on several machines, from their start on.
use wc3ts.Prelude.{◌≡◌, refl, sym, ap, ◌∙◌, subst, ◌⊎◌, inl, inr, [], ◌∷◌, none, some, Bytes, ℕ}
use wc3ts.Prelude.Assoc.{get}
use wc3ts.Net.{Addr}
use wc3ts.W3gs.{Decoder}
use wc3ts.Config.{Config}
use wc3ts.Game.{Game, key}
use wc3ts.Game.Registry.{GameWalk, lookup, new_registry}
use wc3ts.Proxy.{Connection, close_client, handle_connection}
use wc3ts.Proxy.Handler.{Routed, served, handle_connection_lem}
use wc3ts.App.{App, System, services, services_on, run_exec}
use wc3ts.App.Consistent.{Consistent, started, first-started, services_on-Consistent}
use wc3ts.Network.{Network, Comes}
use wc3ts.Network.Letters.{none_of}
use wc3ts.Network.Genuine.{Announced, home, Genuine, Comes-Genuine}

-- Every machine has started the program, and nothing has been sent.
pub record Fresh (n : Network) : Type 0 where
  pub product : Addr → Bytes
  pub version : Addr → ℕ
  pub system : Addr → System
  pub starts : (i : Addr) → run_exec (product i) (version i) (system i) ≡ services (n.apps i)
  pub none_sent : n.sent ≡ []
  pub none_said : n.said ≡ []

no_games :
    (cfg : Config) (sys : System) (port : ℕ) (k : Bytes)
    → lookup k (started cfg sys port).registry.games ≡ none
unfolding services_on new_registry get
no_games cfg sys port k = refl

module _ (decode : Decoder) where
  Fresh-Genuine : (n : Network) → Fresh n → Genuine decode n
  Fresh-Genuine n f = record {
    consistent = λ i.
        let (cfg, port, e) =
          first-started (f.product i) (f.version i) (f.system i) (n.apps i) (f.starts i) in
        subst Consistent e (services_on-Consistent cfg (f.system i) port);
    games = λ i k g found.
        let (cfg, port, e) =
          first-started (f.product i) (f.version i) (f.system i) (n.apps i) (f.starts i) in
        let nothing : none ≡ some g =
          sym (no_games cfg (f.system i) port k)
          ∙ ap (λ (a : App). lookup k a.registry.games) e
          ∙ found in
        absurd (cc nothing);
    letters = λ l m. none_of f.none_sent m;
  }

  -- On machines that have started the program, whatever happens on them and between them: each game
  -- that a program knows has been announced on the machine that hosts it, which for a local game is
  -- the program's own, in a packet that decodes to the fields of the game; and a program sends on
  -- nothing but bytes that were announced on its own machine. Its services are consistent.
  pub Comes-Announced : (n m : Network) → Fresh n → Comes decode n m → Genuine decode m
  Comes-Announced n m f c = Comes-Genuine decode n m c (Fresh-Genuine n f)

  -- On machines that have started the program, whatever has happened: a player who connects to a
  -- program is turned away, or is connected to the machine and the port of a remote game with the
  -- host counter of the player's Join packet, and this game has been announced on that machine, in a
  -- packet that names the host counter and the port.
  pub dials-Announced :
      (n m : Network) (i : Addr) (w : GameWalk) (c : Connection)
      → Fresh n
      → Comes decode n m
      → (handle_connection decode w (m.apps i).registry c ≡ close_client ∷ [])
        ⊎ ((raw : Bytes) × (g : Game) × Routed decode (m.apps i).registry c raw g
            × (handle_connection decode w (m.apps i).registry c ≡ served c raw g)
            × Announced decode m.said g.peer_ip g)
  dials-Announced n m i w c f comes =
      let k = Comes-Announced n m f comes in
      elim (handle_connection_lem decode w (m.apps i).registry c (k.consistent i).valid) [
        | inl (closed, _) ↦ inl closed
        | inr (raw, g, routed, does) ↦
            let there : home i g ≡ g.peer_ip = rw routed.answers.remote refl in
            inr (
              raw,
              g,
              routed,
              does,
              subst (λ a. Announced decode m.said a g) there (k.games i (key g) g routed.bound),
            )
      ]
