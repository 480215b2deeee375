-- ===== src/Lan/Announced.antt =====
-- lan/broadcaster.go: the packets by which a game reaches the local network.
use mathlib.Core.List.{
  mem-cons_self, mem-cons, not-mem-nil, mem-append_left, mem-append_right, Mem-prop,
}
use mathlib.Core.Logic.Or
use wc3ts.Prelude.{
  ℕ, ◌≤◌, ◌≡◌, ap, sym, ◌∙◌, subst, true, List, [], ◌∷◌, Bytes, Mem, length, arith, Bool-cases, inl,
  inr,
}
use wc3ts.Prelude.Walk.{Walk}
use wc3ts.Game.{Game, is_remote}
use wc3ts.Lan.{Broadcaster, broadcast_games, send_raw_game_info, with_port}
use wc3ts.Lan.Broadcast.{announcement, announcements, cancellations, cancelled, broadcast-packets}

announcement_head :
    (port : ℕ) (g : Game)
    → 4 ≤ length g.raw_data
    → Mem (with_port port g.raw_data) (announcement port g)
unfolding announcement send_raw_game_info
announcement_head port g long =
    let sends : send_raw_game_info port g ≡ with_port port g.raw_data ∷ [] = ground arith in
    rw sends mem-cons_self

mem-announcements :
    (port : ℕ) (gs : List Game) (g : Game)
    → Mem g gs
    → is_remote g.source ≡ true
    → 4 ≤ length g.raw_data
    → Mem (with_port port g.raw_data) (announcements port gs)
unfolding announcements
mem-announcements port [] g m remote long = absurd (not-mem-nil m)
mem-announcements port (x ∷ gs) g m remote long =
    Or.elim Mem-prop (mem-cons.0 m)
      (λ same.
        rw (ap (λ (y : Game). is_remote y.source) (sym same) ∙ remote, announcements)
          (mem-append_left (announcements port gs) (
            subst (λ y. Mem (with_port port g.raw_data) (announcement port y)) same
              (announcement_head port g long))))
      (λ later.
        let rest = mem-announcements port gs g later remote long in
        elim (Bool-cases (is_remote x.source)) [
          | inl e ↦ rw (e, announcements) (mem-append_right (announcement port x) rest)
          | inr e ↦ rw (e, announcements) rest
        ])

-- A broadcast has the raw data of each remote game that is long enough, with the port of the proxy.
pub mem-broadcast :
    (w : Walk (Bytes × ℕ)) (b : Broadcaster) (g : Game)
    → Mem g b.games
    → is_remote g.source ≡ true
    → 4 ≤ length g.raw_data
    → Mem (with_port b.proxy_port g.raw_data) (broadcast_games w b).1
mem-broadcast w b g m remote long = rw (broadcast-packets w b) (
    mem-append_left (cancellations (cancelled w b))
      (mem-announcements b.proxy_port b.games g m remote long))
