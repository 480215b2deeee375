-- ===== src/Config/Versions.antt =====
-- config/config.go: parsing and printing of versions.
use wc3ts.Prelude.{
  All-mono, ℕ, ◌+◌, ◌*◌, ◌-◌, ◌^◌, ◌<◌, ◌≡◌, ◌≢◌, refl, ap, ◌∙◌, true, false, [], ◌∷◌, ◌++◌, arith,
  Bytes, All, codes,
}
use wc3ts.Text.{
  number, decimal, is_space, trim_left, trim_right, trim_space, cut_prefix, parse_uint32,
  parse_digits,
}
use wc3ts.Text.Decimal.{IsDigit, decimal-IsDigit, decimal-ne-nil, parse_uint32-decimal}
use wc3ts.Config.{parse_version, format_version, without_major}

abbrev pub Spaces : Bytes → Type 0
Spaces = All (λ c. is_space c ≡ true)

abbrev Solid : Bytes → Type 0
Solid = All (λ c. is_space c ≡ false)

trim_left-Spaces : (p s : Bytes) → Spaces p → trim_left (p ++ s) ≡ trim_left s
unfolding trim_left
trim_left-Spaces [] s h = refl
trim_left-Spaces (c ∷ p) s h = rw h.0 (trim_left-Spaces p s h.1)

trim_left-Solid : (s q : Bytes) → s ≢ [] → Solid s → trim_left (s ++ q) ≡ s ++ q
unfolding trim_left
trim_left-Solid [] q ne h = absurd (ne refl)
trim_left-Solid (c ∷ s) q ne h = rw h.0 refl

trim_right-Spaces : (q : Bytes) → Spaces q → trim_right q ≡ []
unfolding trim_right
trim_right-Spaces [] h = refl
trim_right-Spaces (c ∷ q) h = rw (trim_right-Spaces q h.1, trim_right) (rw h.0 refl)

trim_right-Solid : (s q : Bytes) → Solid s → Spaces q → trim_right (s ++ q) ≡ s
unfolding trim_right
trim_right-Solid [] q h hq = trim_right-Spaces q hq
trim_right-Solid (c ∷ []) q h hq = rw (trim_right-Spaces q hq, trim_right) (rw h.0 refl)
trim_right-Solid (c ∷ d ∷ s) q h hq = rw (trim_right-Solid (d ∷ s) q h.1 hq, trim_right) refl

trim_space_padded :
    (p s q : Bytes) → s ≢ [] → Spaces p → Solid s → Spaces q → trim_space (p ++ (s ++ q)) ≡ s
unfolding trim_space
trim_space_padded p s q ne hp hs hq =
    ap trim_right (trim_left-Spaces p (s ++ q) hp ∙ trim_left-Solid s q ne hs)
    ∙ trim_right-Solid s q hs hq

digit_solid : (c : ℕ) → IsDigit c → is_space c ≡ false
unfolding is_space
digit_solid c h = ground arith

decimal-Solid : (v : ℕ) → Solid (decimal v)
decimal-Solid v = All-mono digit_solid (decimal v) (decimal-IsDigit v)

digits_keep : (s : Bytes) → s ≢ [] → All IsDigit s → without_major s ≡ s
unfolding without_major cut_prefix
digits_keep [] ne h = absurd (ne refl)
digits_keep (c ∷ []) ne h = ground arith
digits_keep (c ∷ d ∷ s) ne h = ground arith

-- `ParseVersion` reads a version of 32 bits back from what `FormatVersion` prints, and from the
-- bare number, with any spaces before and behind.
pub parse-format_version :
    (v : ℕ) (p q : Bytes)
    → v < 2 ^ 32
    → Spaces p
    → Spaces q
    → (parse_version (p ++ (format_version v ++ q)) ≡ number v)
      × (parse_version (p ++ (decimal v ++ q)) ≡ number v)
unfolding parse_version format_version
parse-format_version v p q fits hp hq = (
  ap (λ s. parse_uint32 (without_major s))
        (trim_space_padded p (codes "1." ++ decimal v) q (cc) hp
          (unfold is_space in (refl, (refl, decimal-Solid v))) hq)
      ∙ unfold without_major cut_prefix in parse_uint32-decimal v fits,
  ap (λ s. parse_uint32 (without_major s))
        (trim_space_padded p (decimal v) q (decimal-ne-nil v) hp (decimal-Solid v) hq)
      ∙ ap parse_uint32 (digits_keep (decimal v) (decimal-ne-nil v) (decimal-IsDigit v))
      ∙ parse_uint32-decimal v fits,
)

parse_digits-lt : (s : Bytes) (n v : ℕ) → n < 2 ^ 32 → parse_digits s n ≡ number v → v < 2 ^ 32
unfolding parse_digits
parse_digits-lt [] n v h e = ground arith
parse_digits-lt (c ∷ s) n v h e = ground (arith, parse_digits-lt s (n * 10 + (c - b'0')) v)

parse_uint32-lt : (s : Bytes) (v : ℕ) → parse_uint32 s ≡ number v → v < 2 ^ 32
unfolding parse_uint32
parse_uint32-lt [] v e = cc
parse_uint32-lt (c ∷ s) v e = parse_digits-lt (c ∷ s) 0 v (omega arith) e

-- A version that is accepted fits 32 bits: the conversion to uint32 loses nothing.
pub parse_version-lt : (s : Bytes) (v : ℕ) → parse_version s ≡ number v → v < 2 ^ 32
unfolding parse_version
parse_version-lt s v e = parse_uint32-lt _ v e
