-- ===== src/Text/Split.antt =====
-- Texts with a separator.
use wc3ts.Prelude.{ℕ, ◌≡◌, ◌≢◌, refl, [], ◌∷◌, ◌++◌, arith, Bytes, All}

abbrev pub Lacks : ℕ → Bytes → Type 0
Lacks sep = All (λ c. c ≢ sep)

-- If neither `s` nor `t` holds the separator, the parts on its two sides are the same.
pub split_at_sep :
    (sep : ℕ) (s t u v : Bytes)
    → Lacks sep s
    → Lacks sep t
    → s ++ sep ∷ u ≡ t ++ sep ∷ v
    → (s ≡ t) × (u ≡ v)
split_at_sep sep [] [] u v hs ht e = (refl, cc)
split_at_sep sep [] (d ∷ t) u v hs (hd, ht) e = absurd (hd (cc))
split_at_sep sep (c ∷ s) [] u v (hc, hs) ht e = absurd (hc (cc))
split_at_sep sep (c ∷ s) (d ∷ t) u v (hc, hs) (hd, ht) e =
    ground (arith, split_at_sep sep s t u v hs ht)
