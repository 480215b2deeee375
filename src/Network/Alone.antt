-- ===== src/Network/Alone.antt =====
-- cmd/wc3ts/run.go on several machines: when no two games have one host counter.
use wc3ts.Prelude.{
  ◌≡◌, refl, sym, subst, ap, ◌∙◌, ◌≤◌, ◌++◌, ◌∷◌, inl, inr, some, Bytes, take, take_all, length,
}
use wc3ts.Net.{Addr, UdpAddr, addr_text, as_slice}
use wc3ts.W3gs.{Decoder, game_info}
use wc3ts.Game.{Game, key, source_remote}
use wc3ts.Game.Key.{IsV4}
use wc3ts.Game.Registry.{Registry, GameWalk, lookup}
use wc3ts.Game.Registry.View.{IsValid}
use wc3ts.Game.Registry.Find.{Answers}
use wc3ts.Peer.{Moment, default_port}
use wc3ts.Peer.Origin.{receive_cases}
use wc3ts.App
use wc3ts.App.{App, app_step}
use wc3ts.Network.{Network, occur, deliver}
use wc3ts.Network.Letters.{put_app_all, heard, datagram_registry}
use wc3ts.Network.Genuine.{Genuine, home, sender_ip, from_slice-as_slice}
use wc3ts.Network.Found.{Hosted, put_here, length_of_said, searched, answered}

-- The key of a game on the other machines.
abbrev pub remote_key : Addr → Game → Bytes
remote_key host g = addr_text host ++ b':' ∷ g.info.game_name

pub key-remote :
    (host : Addr) (g x : Game)
    → x.source ≡ source_remote
    → x.peer_ip ≡ host
    → x.info ≡ g.info
    → key x ≡ remote_key host g
unfolding key
key-remote host g x remote hosted same = rw (remote, hosted, same) refl

-- No remote game but perhaps this one has its host counter.
abbrev pub Alone : Addr → Game → App → Type 0
Alone host g a =
    (k : Bytes) (y : Game)
    → lookup k a.registry.games ≡ some y
    → Answers g.info.host_counter y
    → k ≡ remote_key host g

searched-same :
    (decode : Decoder) (w : GameWalk) (from : UdpAddr) (h i : Addr) (n : Network)
    → (searched decode w from h n).apps i ≡ n.apps i
unfolding occur app_step
searched-same decode w from h i n =
    put_app_all (λ j a. a ≡ n.apps j) h (n.apps h) n.apps refl (λ j. refl) i

-- A game that is found is still alone.
receive-Alone :
    (decode : Decoder) (t : Moment) (host : Addr) (g : Game) (a : App)
    → IsV4 host
    → length g.raw_data ≤ 512
    → decode g.raw_data ≡ some (game_info g.info)
    → Alone host g a
    → let a' =
        (app_step decode
          (App.datagram t g.raw_data (some (record { ip = as_slice host; port = default_port })))
          a).0 in
      IsValid a'.registry → Alone host g a'
receive-Alone decode t host g a ipv4 fits decodes alone valid k y found answers =
    let sender : UdpAddr = record { ip = as_slice host; port = default_port } in
    let same = datagram_registry decode t g.raw_data (some sender) a in
    elim (receive_cases decode (heard t g.raw_data (some sender) a) a.registry k y
      (ap (λ (r : Registry). lookup k r.games) (sym same) ∙ found)) [
        | inl old ↦ alone k y old answers
        | inr told ↦
            let whole : take 512 g.raw_data ≡ g.raw_data = take_all 512 g.raw_data fits in
            let both : some (game_info y.info) ≡ some (game_info g.info) =
              sym told.decodes ∙ ap decode whole ∙ decodes in
            let same_info : y.info ≡ g.info = cc both in
            sym (valid.keyed k y found)
            ∙ key-remote host g y answers.remote
                (sender_ip decode t g.raw_data sender host a y (from_slice-as_slice ipv4) told)
                same_info
      ]

pub answered-Alone :
    (decode : Decoder) (n : Network) (h i : Addr) (g : Game) (w : GameWalk) (from : UdpAddr)
    (t : Moment)
    → Hosted n h i g
    → Genuine decode n
    → IsValid ((answered decode w from t h i g n).apps i).registry
    → Alone h g (n.apps i)
    → Alone h g ((answered decode w from t h i g n).apps i)
unfolding deliver occur
answered-Alone decode n h i g w from t k genuine valid alone =
    let is = genuine.games h (key g) g k.bound in
    let at = put_here i _ (searched decode w from h n).apps in
    subst (Alone h g) (sym at) (
      receive-Alone decode t h g _ k.ipv4 (length_of_said decode n.said (home h g) g is) is.decodes
        (subst (Alone h g) (sym (searched-same decode w from h i n)) alone)
        (subst (λ a. IsValid a.registry) at valid))
