-- ===== src/Tui/View/Ago.antt =====
-- tui/view.go: `formatDuration`, with the rounding of its hours.
use wc3ts.Prelude.{
  ℕ, zero, suc, ◌+◌, ◌^◌, if◌then◌else◌, leb, ◌*◌, ◌/◌, ◌%◌, ◌≤◌, ◌<◌, ◌≡◌, refl, ◌++◌, Bytes,
  codes, ltb, arith, Bool-cases, inl, inr,
}
use wc3ts.Text.{decimal}
use wc3ts.Config.{second}
use wc3ts.Tui.View.Detail.{
  leading, rounded_hours, hour_part, whole_hours, minute, hour, format_duration,
}

pub data TimeUnit : Type 0 where
  seconds minutes hours : TimeUnit

abbrev pub nanoseconds : TimeUnit → ℕ
nanoseconds seconds = second
nanoseconds minutes = minute
nanoseconds hours = hour

abbrev pub ago : TimeUnit → Bytes
ago seconds = codes " seconds ago"
ago minutes = codes " minutes ago"
ago hours = codes " hours ago"

-- The numbers that are told in a unit.
abbrev pub Told : TimeUnit → ℕ → Type 0
Told seconds n = n < 60
Told minutes n = (1 ≤ n) × (n < 60)
Told hours n = 1 ≤ n

one-le-pow : (k : ℕ) → 1 ≤ 2 ^ k
one-le-pow zero = omega arith
one-le-pow (suc k) = omega (arith, one-le-pow k)

leading-le : (k n h : ℕ) → h < 2 ^ suc k → leading n h ≤ 2 ^ k
unfolding leading
leading-le zero zero h less = omega arith
leading-le (suc k) zero h less = one-le-pow (suc k)
leading-le zero (suc n) h less = ground arith
leading-le (suc k) (suc n) h less =
    let half = leading-le k n (h / 2) (omega arith) in ground (arith, half)

-- By how much a number of hours may be ahead, in nanoseconds.
abbrev pub ahead : ℕ → ℕ
ahead d = if ltb d (4096 * hour) then 0 else 1000

rounded_hours_lem :
    (half slack d : ℕ)
    → hour ≤ d
    → 2 * half + 1 ≤ 5003 * suc slack
    → (1 ≤ rounded_hours half d)
      × (rounded_hours half d * hour ≤ d + slack)
      × (d < suc (rounded_hours half d) * hour)
unfolding rounded_hours
rounded_hours_lem half slack d least small =
    elim (Bool-cases (leb 9_007_199_254_740_992 (hour_part (d % hour) + half))) [
      | inl e ↦
          let near : 9_007_199_254_740_992 ≤ hour_part (d % hour) + half = ground arith in
          rw e (omega arith, omega (arith, near), omega arith)
      | inr e ↦ rw e (omega arith, omega arith, omega arith)
    ]

whole_hours_lem :
    (d : ℕ)
    → hour ≤ d
    → d < 2 ^ 63
    → (1 ≤ whole_hours d) × (whole_hours d * hour ≤ d + ahead d) × (d < suc (whole_hours d) * hour)
unfolding whole_hours
whole_hours_lem d least less = elim (Bool-cases (ltb d (4096 * hour))) [
  | inl e ↦
      let few : d / hour < 4096 = ground arith in
      rounded_hours_lem (leading 21 (d / hour)) (ahead d) d least
        (omega (arith, leading-le 11 21 (d / hour) few))
  | inr e ↦
      let all : d / hour < 4194304 = omega arith in
      let same : ahead d ≡ 1000 = ground arith in
      rounded_hours_lem (leading 21 (d / hour)) (ahead d) d least
        (omega (arith, same, leading-le 21 21 (d / hour) all))
]

-- A duration, which is below 2 ^ 63 nanoseconds, is shown as a number of seconds below 60, of
-- minutes from 1 to 59, or of hours from 1 on. For less than 4096 hours the number is the one of
-- whole units that have passed; from then on a number of hours may be shown up to a microsecond
-- before it is reached, and never too late.
pub format_duration_lem :
    (d : ℕ)
    → d < 2 ^ 63
    → (u : TimeUnit) × (n : ℕ) × (format_duration d ≡ decimal n ++ ago u)
      × Told u n
      × (n * nanoseconds u ≤ d + ahead d)
      × (d < suc n * nanoseconds u)
unfolding format_duration
format_duration_lem d less = elim (Bool-cases (ltb d minute)) [
  | inl e ↦ rw e (seconds, d / second, refl, ground arith, omega arith, omega arith)
  | inr e ↦ elim (Bool-cases (ltb d hour)) [
    | inl e' ↦
        rw (e, e')
          (minutes, d / minute, refl, (ground arith, ground arith), omega arith, omega arith)
    | inr e' ↦
        let whole = whole_hours_lem d (ground arith) less in
        rw (e, e') (hours, whole_hours d, refl, whole.0, whole.1, whole.2)
  ]
]
