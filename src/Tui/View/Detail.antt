-- ===== src/Tui/View/Detail.antt =====
-- tui/view.go: the detail views of a peer and of a game.
use wc3ts.Prelude.{
  ℕ, zero, suc, ◌+◌, ◌%◌, leb, ◌-◌, ◌*◌, ◌/◌, ◌&&◌, List, [], ◌∷◌, ◌++◌, Option, none, some, Bytes,
  codes, holds, length, ltb, ◌==◌, if◌then◌else◌,
}
use wc3ts.Text.{decimal}
use wc3ts.Net.{Addr, addr_discrete, addr_text}
use wc3ts.Config.{second}
use wc3ts.Game.{Game, source_text, is_remote}
use wc3ts.Tailscale.{Peer}
use wc3ts.Tui.{Tables}
use wc3ts.Tui.Rows.{os_display}
use wc3ts.Tui.View.Style.{Renderer, Styles}

abbrev pub newline : Bytes
newline = 10 ∷ []

-- What a `strings.Builder` holds after these writes.
abbrev pub written : List Bytes → Bytes
written [] = []
written (s ∷ rest) = s ++ written rest

abbrev pub minute : ℕ
minute = 60 * second

abbrev pub hour : ℕ
hour = 60 * minute

-- The greatest power of two up to a number below `2 ^ suc n` that is not 0.
unfoldable pub leading : ℕ → ℕ → ℕ
leading zero h = 1
leading (suc n) h = let rest = leading n (h / 2) in if ltb h 2 then 1 else 2 * rest

-- The part of an hour in nanoseconds, as a fraction of the hour that is rounded to 53 bits.
abbrev pub hour_part : ℕ → ℕ
hour_part nsec = (2 * nsec * 9_007_199_254_740_992 + hour) / (2 * hour)

-- The number of hours in a duration, with the next one if the part that is missing of it is at most
-- `half`, in units of 2 ^ -53 hours.
unfoldable pub rounded_hours : ℕ → ℕ → ℕ
rounded_hours half d =
    if leb 9_007_199_254_740_992 (hour_part (d % hour) + half) then suc (d / hour) else d / hour

-- `int(d.Hours())` of at least an hour. `Hours` adds the part of an hour to the number of hours, as
-- `float64`; the sum is rounded to the next number of hours when what is missing is at most half of
-- the space between two such numbers. Durations have less than 2 ^ 22 hours.
unfoldable pub whole_hours : ℕ → ℕ
unfolding leading rounded_hours
whole_hours d = rounded_hours (leading 21 (d / hour)) d

-- `formatDuration` of a duration in nanoseconds. The sums in `Seconds` and `Minutes`, which are
-- below 60, are never rounded to the next whole number.
unfoldable pub format_duration : ℕ → Bytes
unfolding whole_hours
format_duration d =
    if ltb d minute
    then decimal (d / second) ++ codes " seconds ago"
    else if ltb d hour
    then decimal (d / minute) ++ codes " minutes ago"
    else decimal (whole_hours d) ++ codes " hours ago"

-- the loop over the games in `viewPeerDetail`
unfoldable pub hosted_games : Addr → List Game → List Game
unfolding addr_discrete
hosted_games ip [] = []
hosted_games ip (g ∷ gs) =
    let rest = hosted_games ip gs in
    if is_remote g.source && holds (addr_discrete g.peer_ip ip) then g ∷ rest else rest

abbrev or_dash : Bytes → Bytes
or_dash [] = codes "-"
or_dash (c ∷ s) = c ∷ s

-- the label and the value of a row
abbrev pub Field : Type 0
Field = Bytes × Bytes

pub peer_fields : Peer → List Game → List Field
unfolding hosted_games
peer_fields p games =
    (codes "Name:", p.name)
    ∷ (codes "IP:", addr_text p.ip)
    ∷ (codes "OS:", os_display p.os)
    ∷ (codes "Status:", if p.online then codes "Online" else codes "Offline")
    ∷ (codes "Games:", decimal (length (hosted_games p.ip games)))
    ∷ []

pub players : Game → Bytes
players g = decimal g.info.slots_used ++ (b'/' ∷ decimal g.info.slots_total)

-- the row of a time, if it is set, on a clock that shows `now`
pub seen_field : Bytes → ℕ → ℕ → List Field
unfolding format_duration
seen_field label now seen = if seen == 0 then [] else (label, format_duration (now - seen)) ∷ []

abbrev host_fields : Game → List Field
host_fields g =
    if is_remote g.source
    then (codes "Host Peer:", or_dash g.peer_name) ∷ (codes "Host IP:", addr_text g.peer_ip) ∷ []
    else []

-- The clock is read once for each time.
pub game_fields : ℕ → ℕ → Game → List Field
unfolding players seen_field
game_fields now later g =
    ((codes "Name:", g.info.game_name)
      ∷ (codes "Map:", g.info.map_path)
      ∷ (codes "Players:", players g)
      ∷ (codes "Host Player:", or_dash g.info.host_name)
      ∷ (
        codes "Version:",
        written
            (g.info.game_version.product ∷ codes " 1." ∷ decimal g.info.game_version.version ∷ []),
      )
      ∷ (codes "Source:", source_text g.source)
      ∷ [])
    ++ (host_fields g
        ++ ((codes "Game Port:", decimal g.info.game_port)
            ∷ (seen_field (codes "First Seen:") now g.first_seen
                ++ seen_field (codes "Last Seen:") later g.last_seen)))

module _ {ops : Tables} (r : Renderer ops) (s : Styles) where
  pub detail_row : Field → Bytes
  detail_row (label, value) =
      written
        (r.render s.detail_label label ∷ codes " " ∷ r.render s.detail_value value ∷ newline ∷ [])

  pub detail_rows : List Field → Bytes
  unfolding detail_row
  detail_rows [] = []
  detail_rows (f ∷ fs) = detail_row f ++ detail_rows fs

  pub game_line : Game → Bytes
  unfolding players
  game_line g =
      r.render s.detail_value (
        written (codes "  - " ∷ g.info.game_name ∷ codes " (" ∷ players g ∷ codes " players)" ∷ []))

  pub game_lines : List Game → Bytes
  unfolding game_line
  game_lines [] = []
  game_lines (g ∷ gs) = game_line g ++ (newline ++ game_lines gs)

  -- the list under the rows of a peer, if there are games
  pub hosted_section : List Game → Bytes
  unfolding game_lines
  hosted_section [] = []
  hosted_section (g ∷ gs) = written (
      newline
      ∷ r.render s.detail_label (codes "Hosted games:")
      ∷ newline
      ∷ game_lines (g ∷ gs)
      ∷ [])

  -- a detail view around the content of its box
  pub detail_view : Bytes → Bytes → Bytes
  detail_view title content = written (
      r.render s.title title
      ∷ newline
      ∷ newline
      ∷ r.render s.detail_box content
      ∷ newline
      ∷ newline
      ∷ r.render s.help (codes "Press Escape to return")
      ∷ [])

  pub peer_view : Peer → List Game → Bytes
  unfolding peer_fields detail_rows hosted_section detail_view
  peer_view p games =
      detail_view (codes "Peer Details")
        (detail_rows (peer_fields p games) ++ hosted_section (hosted_games p.ip games))

  unfoldable pub view_peer_detail : Option Peer → List Game → Bytes
  unfolding peer_view
  view_peer_detail none games = codes "No peer selected"
  view_peer_detail (some p) games = peer_view p games

  pub game_view : ℕ → ℕ → Game → Bytes
  unfolding game_fields detail_rows detail_view
  game_view now later g = detail_view (codes "Game Details") (detail_rows (game_fields now later g))

  unfoldable pub view_game_detail : ℕ → ℕ → Option Game → Bytes
  unfolding game_view
  view_game_detail now later none = codes "No game selected"
  view_game_detail now later (some g) = game_view now later g
