-- ===== src/Lan/History.antt =====
-- lan/broadcaster.go: the broadcaster over its whole life, in which lists of games arrive and ticks
-- pass in any order.
use wc3ts.Lan.Once.{times, times-cancelled}
use wc3ts.Prelude.{
  ◌≤◌, ℕ, ◌≡◌, ◌↔◌, refl, ap, sym, ◌∙◌, List, [], ◌∷◌, ◌++◌, Bytes, bytes_discrete, none, some, Mem,
}
use wc3ts.Prelude.Assoc.{Assoc, IsMap}
use wc3ts.Prelude.Walk.{Walk}
use wc3ts.Game.{Game}
use wc3ts.Lan.{Broadcaster, broadcast_games, on_games_changed, new_broadcaster}
use wc3ts.Lan.Broadcast.{
  counter_of, counter_of-nil, listed, announcements, cancellations, cancelled, broadcast-packets,
  broadcast-counters, broadcast-IsMap, mem-cancelled,
}

-- What happens to a broadcaster: `OnGamesChanged`, and a tick of `Run`.
pub data Event : Type 0 where
  changed : List Game → Event
  tick : Walk (Bytes × ℕ) → Event

pub after : Broadcaster → Event → Broadcaster
after b (changed games) = on_games_changed games b
after b (tick w) = (broadcast_games w b).0

pub run : Broadcaster → List Event → Broadcaster
run b [] = b
run b (e ∷ es) = run (after b e) es

-- The specification keeps two lists: the last that arrived, and the last that was broadcast.
pub record Lists : Type 0 where
  pub current : List Game
  pub shown : List Game

pub note : Lists → Event → Lists
note l (changed games) = record l { current = games }
note l (tick w) = record l { shown = l.current }

pub notes : Lists → List Event → Lists
notes l [] = l
notes l (e ∷ es) = notes (note l e) es

pub record Shows (port : ℕ) (l : Lists) (b : Broadcaster) : Type 0 where
  pub same_port : b.proxy_port ≡ port
  pub same_games : b.games ≡ l.current
  pub one_each : IsMap bytes_discrete b.previous_game_keys
  pub counters : (k : Bytes) → counter_of k b.previous_game_keys ≡ listed k l.shown

module _ (port : ℕ) where
  new-Shows : Shows port (record { current = []; shown = [] }) (new_broadcaster port)
  unfolding new_broadcaster
  new-Shows = record {
    same_port = refl;
    same_games = refl;
    one_each = tt;
    counters = counter_of-nil;
  }

  after-Shows :
      (l : Lists) (b : Broadcaster) (e : Event) → Shows port l b → Shows port (note l e) (after b e)
  unfolding after note on_games_changed
  after-Shows l b (changed games) s = record {
    same_port = s.same_port;
    same_games = refl;
    one_each = s.one_each;
    counters = s.counters;
  }
  after-Shows l b (tick w) s = record {
    same_port = unfold broadcast_games in s.same_port;
    same_games = unfold broadcast_games in s.same_games;
    one_each = broadcast-IsMap w b;
    counters = λ k. broadcast-counters w b k ∙ ap (listed k) s.same_games;
  }

  run-Shows :
      (l : Lists) (b : Broadcaster) (es : List Event)
      → Shows port l b
      → Shows port (notes l es) (run b es)
  unfolding run notes
  run-Shows l b [] s = s
  run-Shows l b (e ∷ es) s = run-Shows (note l e) (after b e) es (after-Shows l b e s)

  -- What a new broadcaster has been told and has shown after some events.
  abbrev pub told : List Event → Lists
  told es = notes (record { current = []; shown = [] }) es

  -- The next tick after any events on a new broadcaster sends the announcements of the remote
  -- games in the list that arrived last, in order, and then cancellations. A key is cancelled, with
  -- its host counter of that time, exactly when the list shown at the previous tick has a remote
  -- game with the key and the list of this tick has none; and it is cancelled once.
  pub tick-cancels :
      (es : List Event) (w : Walk (Bytes × ℕ))
      → (gone : Assoc Bytes ℕ) × ((broadcast_games w (run (new_broadcaster port) es)).1
          ≡ announcements port (told es).current ++ cancellations gone)
        × ((k : Bytes) (h : ℕ)
            → Mem (k, h) gone
              ↔ ((listed k (told es).shown ≡ some h) × (listed k (told es).current ≡ none)))
        × ((k : Bytes) → times k gone ≤ 1)
  tick-cancels es w =
      let b = run (new_broadcaster port) es in
      let s = run-Shows _ (new_broadcaster port) es new-Shows in
      (
        cancelled w b,
        broadcast-packets w b ∙ (λ i.
            announcements (s.same_port i) (s.same_games i) ++ cancellations (cancelled w b)),
        λ k h.
            let iff = mem-cancelled w b k h s.one_each in
            (
              λ m. (
                sym (s.counters k) ∙ (iff.0 m).0,
                ap (listed k) (sym s.same_games) ∙ (iff.0 m).1,
              ),
              λ t. iff.1 (s.counters k ∙ t.0, ap (listed k) s.same_games ∙ t.1),
            ),
        λ k. times-cancelled k w b s.one_each,
      )
