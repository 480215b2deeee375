-- ===== src/Network/Found.antt =====
-- cmd/wc3ts/run.go on several machines: the way of a game from the machine that hosts it to a player
-- on another.
use mathlib.Core.List.{
  mem-cons_self, mem-cons_of_mem, mem-cons, mem-append_left, mem-cast, not-mem-nil, Mem-prop,
}
use mathlib.Core.Logic.Or
use mathlib.Core.Logic.{∥∥₁_elim}
use native.Mathlib.Bridge.{le_prop}
use wc3ts.Prelude.{
  ◌≤◌, ◌≡◌, ◌≢◌, refl, sym, ap, ◌∙◌, subst, true, false, List, [], ◌∷◌, some, Mem, length,
  length-take, map, arith,
}
use wc3ts.Net.{Addr, UdpAddr, addr_discrete, as_slice, is_loopback}
use wc3ts.W3gs.{Decoder, game_info}
use wc3ts.Game.{Game, key, source_remote, is_local}
use wc3ts.Game.Key.{IsV4, is_v4}
use wc3ts.Game.Registry.{Registry, GameWalk, lookup}
use wc3ts.Game.Registry.View.{IsValid}
use wc3ts.Tailscale.{Peer}
use wc3ts.Peer.{default_port, Moment, Reply, probe_peer, probe_all_peers}
use wc3ts.Peer.Probing.{remote, probe_all_peers_lem}
use wc3ts.Peer.Respond.{reply_to, on_search_game_lem, reply_arrives}
use wc3ts.App
use wc3ts.App.{App, AppEvent, is_some, app_step}
use wc3ts.Network.{Letter, Saying, Network, occur, deliver, letters, put_app}
use wc3ts.Network.Letters.{heard, datagram_registry}
use wc3ts.Network.Genuine.{Announced, home, Genuine}

pub put_here : (i : Addr) (a : App) (apps : Addr → App) → put_app i a apps i ≡ a
unfolding put_app
put_here i a apps = elim (addr_discrete i i) [
  | yes same ↦ ground arith
  | no differ ↦ absurd (differ refl)
]

mem-letters :
    (i : Addr) (rs : List Reply) (r : Reply)
    → Mem r rs
    → Mem (record { machine = i; reply = r }) (letters i (map App.reply rs))
unfolding letters
mem-letters i [] r m = absurd (not-mem-nil m)
mem-letters i (x ∷ rs) r m =
    Or.elim Mem-prop (mem-cons.0 m)
      (λ same. mem-cast (ap (λ y. record { machine = i; reply = y }) same) mem-cons_self)
      (λ later. mem-cons_of_mem _ (mem-letters i rs r later))

-- Machine `i` has machine `h` as an online peer, and machine `h` has a local game and a responder.
pub record Hosted (n : Network) (h i : Addr) (g : Game) : Type 0 where
  pub ipv4 : IsV4 h
  pub far : is_loopback h ≡ false
  pub bound : lookup (key g) (n.apps h).registry.games ≡ some g
  pub local : is_local g.source ≡ true
  pub long : 4 ≤ length g.raw_data
  pub answers : is_some (n.apps h).responder ≡ true
  pub peer : Peer
  pub known_peer : Mem peer (n.apps i).peer_manager.peers
  pub there : peer.ip ≡ h
  pub online : peer.online ≡ true
  pub has_version : (n.apps i).peer_manager.version.version ≢ 0

-- The search and the answer, as the network sees them.
abbrev pub letter : Addr → Game → UdpAddr → Letter
letter h g from = record { machine = h; reply = reply_to from g }

abbrev pub searched : Decoder → GameWalk → UdpAddr → Addr → Network → Network
searched decode w from h n = occur decode h (App.search_query w (some from)) n

abbrev pub answered : Decoder → GameWalk → UdpAddr → Moment → Addr → Addr → Game → Network → Network
answered decode w from t h i g n = deliver decode i t (letter h g from) (searched decode w from h n)

-- What has become of the game on machine `i`.
pub record Received (host : Addr) (g : Game) (a : App) : Type 0 where
  pub game : Game
  pub known : lookup (key game) a.registry.games ≡ some game
  pub same_data : game.raw_data ≡ g.raw_data
  pub same_info : game.info ≡ g.info
  pub remote : game.source ≡ source_remote
  pub hosted : game.peer_ip ≡ host

module _ (decode : Decoder) (n : Network) (h i : Addr) (g : Game) (k : Hosted n h i g) where
  pub asks :
      Mem (probe_peer h (n.apps i).peer_manager.version) (probe_all_peers (n.apps i).peer_manager)
  asks =
      ((probe_all_peers_lem (n.apps i).peer_manager).1 k.has_version _).1
        ∣ remote k.peer k.known_peer k.online
          (ap (λ x. probe_peer x (n.apps i).peer_manager.version) (sym k.there)) ∣₁

  pub answers :
      (w : GameWalk) (from : UdpAddr)
      → IsValid (n.apps h).registry
      → Mem (letter h g from) (searched decode w from h n).sent
  unfolding occur app_step
  answers w from v =
      let offered = ((on_search_game_lem w (n.apps h).registry v).1 from (reply_to from g)).1 ∣ (
        g,
        (k.bound, k.local, λ e. let none_long = ap length e in omega (arith, k.long)),
        refl,
      ) ∣₁ in
      mem-append_left n.sent (rw k.answers (mem-letters h _ _ offered))

pub length_of_said :
    (decode : Decoder) (said : List Saying) (m : Addr) (g : Game)
    → Announced decode said m g
    → length g.raw_data ≤ 512
length_of_said decode said m g a =
    ∥∥₁_elim a.said_there le_prop
      (λ t. let long = length-take 512 t.0 in let same = ap length t.2 in omega arith)

receive-Received :
    (decode : Decoder) (t : Moment) (host : Addr) (g : Game) (a : App)
    → IsV4 host
    → is_loopback host ≡ false
    → length g.raw_data ≤ 512
    → decode g.raw_data ≡ some (game_info g.info)
    → Received host g
        (app_step decode
          (App.datagram t g.raw_data (some (record { ip = as_slice host; port = default_port })))
          a).0
unfolding as_slice is_loopback
receive-Received decode t host g a (is_v4 b c d e) far fits decodes =
    let sender : UdpAddr = record { ip = b ∷ c ∷ d ∷ e ∷ []; port = default_port } in
    let same = datagram_registry decode t g.raw_data (some sender) a in
    let (x, bound, bytes, info, from_peer, ip) =
      reply_arrives decode (heard t g.raw_data (some sender) a) a.registry g sender g.info b c d e
        default_port refl fits decodes refl (λ eq. ground arith) in
    record {
      game = x;
      known = ap (λ (r : Registry). lookup (key x) r.games) same ∙ bound;
      same_data = bytes;
      same_info = info;
      remote = from_peer;
      hosted = ip;
    }

pub received :
    (decode : Decoder) (n : Network) (h i : Addr) (g : Game)
    → Hosted n h i g
    → (w : GameWalk) (from : UdpAddr) (t : Moment) → Genuine decode n
    → Received h g ((answered decode w from t h i g n).apps i)
unfolding deliver occur
received decode n h i g k w from t genuine =
    let is = genuine.games h (key g) g k.bound in
    subst (Received h g) (sym (put_here i _ (searched decode w from h n).apps)) (
      receive-Received decode t h g _ k.ipv4 k.far (length_of_said decode n.said (home h g) g is)
        is.decodes)
