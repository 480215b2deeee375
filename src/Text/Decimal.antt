-- ===== src/Text/Decimal.antt =====
-- Numbers in decimal.
use wc3ts.Prelude.{
  ℕ, zero, suc, ◌+◌, ◌-◌, ◌*◌, ◌/◌, ◌%◌, ◌^◌, ◌≤◌, ◌<◌, ◌≡◌, ◌≢◌, refl, ap, ◌∙◌, sym, [], ◌∷◌,
  arith, Bytes, All,
}
use wc3ts.Text.{digits, decimal, number, parse_digits, parse_uint32}

abbrev pub IsDigit : ℕ → Type 0
IsDigit c = (b'0' ≤ c) × (c ≤ b'9')

-- The number that digits spell behind `n`.
pub value : Bytes → ℕ → ℕ
value [] n = n
value (c ∷ s) n = value s (n * 10 + (c - b'0'))

value-digits : (f n : ℕ) (out : Bytes) → n ≤ f → value (digits f n out) 0 ≡ value out n
unfolding digits value
value-digits zero n out h = ap (value out) (omega arith)
value-digits (suc f) n out h =
    ground (arith, value-digits f (n / 10) ((b'0' + n % 10) ∷ out), tenth_and_rest n)
  where
    tenth_and_rest : (m : ℕ) → m / 10 * 10 + m % 10 ≡ m
    tenth_and_rest m = omega arith

digits-IsDigit : (f n : ℕ) (out : Bytes) → All IsDigit out → All IsDigit (digits f n out)
unfolding digits
digits-IsDigit zero n out h = h
digits-IsDigit (suc f) n out h = ground (arith, digits-IsDigit f (n / 10) ((b'0' + n % 10) ∷ out))

pub decimal-IsDigit : (n : ℕ) → All IsDigit (decimal n)
unfolding decimal
decimal-IsDigit n = ground (arith, digits-IsDigit n n [] tt)

value-decimal : (n : ℕ) → value (decimal n) 0 ≡ n
unfolding decimal value
value-decimal n = ground (arith, value-digits n n [])

-- tenth_and_rest numbers with one print are one number.
pub decimal-injective : (m n : ℕ) → decimal m ≡ decimal n → m ≡ n
decimal-injective m n h = sym (value-decimal m) ∙ ap (λ s. value s 0) h ∙ value-decimal n

digits-ne-nil : (f n c : ℕ) (out : Bytes) → digits f n (c ∷ out) ≢ []
unfolding digits
digits-ne-nil zero n c out = cc
digits-ne-nil (suc f) n c out = ground (arith, digits-ne-nil f (n / 10) (b'0' + n % 10) (c ∷ out))

pub decimal-ne-nil : (n : ℕ) → decimal n ≢ []
unfolding decimal digits
decimal-ne-nil zero = ground arith
decimal-ne-nil (suc n) = ground (arith, digits-ne-nil n (suc n / 10) (b'0' + suc n % 10) [])

le-value : (s : Bytes) (n : ℕ) → n ≤ value s n
unfolding value
le-value [] n = omega arith
le-value (c ∷ s) n = omega (arith, le-value s (n * 10 + (c - b'0')))

parse_digits-value :
    (s : Bytes) (n : ℕ) → All IsDigit s → value s n < 2 ^ 32 → parse_digits s n ≡ number (value s n)
unfolding parse_digits value
parse_digits-value [] n h fits = refl
parse_digits-value (c ∷ s) n (hc, hs) fits =
    let m = n * 10 + (c - b'0') in ground (arith, parse_digits-value s m hs fits, le-value s m)

parse_uint32-value :
    (s : Bytes) → s ≢ [] → All IsDigit s → value s 0 < 2 ^ 32 → parse_uint32 s ≡ number (value s 0)
unfolding parse_uint32
parse_uint32-value [] ne h fits = absurd (ne refl)
parse_uint32-value (c ∷ s) ne h fits = parse_digits-value (c ∷ s) 0 h fits

-- A number of 32 bits is read back from its print.
pub parse_uint32-decimal : (n : ℕ) → n < 2 ^ 32 → parse_uint32 (decimal n) ≡ number n
parse_uint32-decimal n h =
    parse_uint32-value (decimal n) (decimal-ne-nil n) (decimal-IsDigit n) (rw (value-decimal n) h)
    ∙ ap number (value-decimal n)
