-- ===== src/Net/Text.antt =====
-- The print of IPv4 addresses.
use wc3ts.Prelude.{All-mono, All-append, ℕ, ◌≡◌, ◌≢◌, arith}
use wc3ts.Text.{decimal}
use wc3ts.Text.Decimal.{decimal-IsDigit, decimal-injective}
use wc3ts.Text.Split.{Lacks, split_at_sep}
use wc3ts.Net.{text4}

dot_free : (n : ℕ) → Lacks b'.' (decimal n)
dot_free n = All-mono (λ c h. omega arith) (decimal n) (decimal-IsDigit n)

colon_free : (n : ℕ) → Lacks b':' (decimal n)
colon_free n = All-mono (λ c h. omega arith) (decimal n) (decimal-IsDigit n)

pub text4-Lacks : (a b c d : ℕ) → Lacks b':' (text4 a b c d)
unfolding text4
text4-Lacks a b c d =
    let join = All-append (λ x. x ≢ b':') in
    join (decimal a) _ (colon_free a) (
      omega arith,
      join (decimal b) _ (colon_free b)
          (omega arith, join (decimal c) _ (colon_free c) (omega arith, colon_free d)),
    )

-- Two IPv4 addresses with one print are one address.
pub text4-injective :
    (a b c d a' b' c' d' : ℕ)
    → text4 a b c d ≡ text4 a' b' c' d'
    → (a ≡ a') × (b ≡ b') × (c ≡ c') × (d ≡ d')
unfolding text4
text4-injective a b c d a' b' c' d' e =
    let (ea, e₁) = split_at_sep b'.' (decimal a) (decimal a') _ _ (dot_free a) (dot_free a') e in
    let (eb, e₂) = split_at_sep b'.' (decimal b) (decimal b') _ _ (dot_free b) (dot_free b') e₁ in
    let (ec, ed) = split_at_sep b'.' (decimal c) (decimal c') _ _ (dot_free c) (dot_free c') e₂ in
    (
      decimal-injective a a' ea,
      decimal-injective b b' eb,
      decimal-injective c c' ec,
      decimal-injective d d' ed,
    )
