-- ===== src/App/Joining.antt =====
-- cmd/wc3ts/run.go and proxy/tcp.go: players who join a game that was announced.
use wc3ts.Prelude.{◌≡◌, sym, ap, subst, ◌∙◌, inl, inr, some, Bytes, Mem}
use mathlib.Core.List.Perm
use wc3ts.W3gs.{Join, Decoder}
use wc3ts.Game.{Game, key, source_remote}
use wc3ts.Game.Registry.{GameWalk, lookup}
use wc3ts.Game.Registry.Find.{Answers}
use wc3ts.Game.Registry.Values.{mem-values}
use wc3ts.Proxy.{Connection, joined, read_join_packet, handle_connection}
use wc3ts.Proxy.Handler.{Routed, served, handle_connection_lem}
use wc3ts.App.{App}
use wc3ts.App.Consistent.{Running, running-Consistent}

-- In a program that has started, whatever has happened: if the broadcaster has a remote game, and a
-- player connects with a Join packet that has this game's host counter, then the host of a remote
-- game of the registry with this host counter is dialled for the player, and no other.
pub announced_joins :
    (decode : Decoder) (a : App) (g : Game) (w : GameWalk) (c : Connection) (j : Join) (raw : Bytes)
    → Running decode a
    → Mem g a.broadcaster.games
    → g.source ≡ source_remote
    → read_join_packet decode c ≡ joined j raw
    → j.host_counter ≡ g.info.host_counter
    → (x : Game) × (lookup (key x) a.registry.games ≡ some x)
      × Answers g.info.host_counter x
      × (handle_connection decode w a.registry c ≡ served c raw x)
announced_joins decode a g w c j raw run here remote reads counter =
    let k = running-Consistent decode a run in
    let bound = (mem-values a.registry g k.valid).0 ((Perm.mem_iff k.same_games).0 here) in
    let there : Routed decode a.registry c raw g = record {
      packet = j;
      reads = reads;
      bound = bound;
      answers = record { remote = remote; counter = sym counter };
    } in
    elim (handle_connection_lem decode w a.registry c k.valid) [
      | inl (_, turned_away) ↦ absurd (turned_away raw g there)
      | inr (packet, x, found, does) ↦
          let same : joined found.packet packet ≡ joined j raw = sym found.reads ∙ reads in
          let same_join : found.packet ≡ j = cc same in
          let same_raw : packet ≡ raw = cc same in
          let same_counter : found.packet.host_counter ≡ g.info.host_counter =
            ap (λ (y : Join). y.host_counter) same_join ∙ counter in
          (
            x,
            found.bound,
            subst (λ h. Answers h x) same_counter found.answers,
            does ∙ ap (λ y. served c y x) same_raw,
          )
    ]
