-- ===== src/Text.antt =====
-- What the program uses of Go's `fmt`, `strconv` and `strings`: numbers in decimal, lower case,
-- trimming and prefixes. A text is the list of its bytes; bytes above 127 are never letters or
-- spaces here, so the functions are Go's on ASCII text.
pub mod Decimal
pub mod Split
use wc3ts.Prelude.{
  ℕ, zero, suc, ◌+◌, ◌-◌, ◌*◌, ◌/◌, ◌%◌, ◌^◌, ◌≡◌, refl, Bool, true, false, ◌&&◌, ◌||◌, List, [],
  ◌∷◌, ◌++◌, map, Option, none, some, Bytes, codes, ltb, leb, ◌==◌, if◌then◌else◌,
}

-- The digits of `n` in front of `out`, a round for each; `n` rounds are enough.
pub digits : ℕ → ℕ → Bytes → Bytes
digits zero n out = out
digits (suc f) n out =
    let rest = digits f (n / 10) ((b'0' + n % 10) ∷ out) in if n == 0 then out else rest

-- `%d` and `strconv.Itoa` of a number that is not negative
unfoldable pub decimal : ℕ → Bytes
unfolding digits
decimal n = if n == 0 then b'0' ∷ [] else digits n n []

unfoldable pub to_lower : Bytes → Bytes
to_lower = map (λ c. if leb b'A' c && leb c b'Z' then c + 32 else c)

-- `strings.ToUpper` of one byte
abbrev pub upper : ℕ → ℕ
upper c = if leb b'a' c && leb c b'z' then c - 32 else c

unfoldable pub is_space : ℕ → Bool
is_space c = c == 32 || leb 9 c && leb c 13

unfoldable pub trim_left : Bytes → Bytes
unfolding is_space
trim_left [] = []
trim_left (c ∷ s) = let rest = trim_left s in if is_space c then rest else c ∷ s

unfoldable pub trim_right : Bytes → Bytes
unfolding is_space
trim_right [] = []
trim_right (c ∷ s) = elim (trim_right s) [
  | [] ↦ if is_space c then [] else c ∷ []
  | d ∷ r ↦ c ∷ d ∷ r
]

unfoldable pub trim_space : Bytes → Bytes
unfolding trim_left trim_right
trim_space s = trim_right (trim_left s)

-- `strings.CutPrefix`: what follows the prefix, if the text begins with it
unfoldable pub cut_prefix : Bytes → Bytes → Option Bytes
cut_prefix s [] = some s
cut_prefix [] (p ∷ ps) = none
cut_prefix (c ∷ s) (p ∷ ps) = if c == p then cut_prefix s ps else none

pub data NumError : Type 0 where
  err_syntax err_range : NumError

pub data Parsed : Type 0 where
  number : ℕ → Parsed
  failed : NumError → Parsed

-- the digits of `strconv.ParseUint(s, 10, 32)`; the value cannot wrap a uint64 before the bound
-- of 32 bits stops it
unfoldable pub parse_digits : Bytes → ℕ → Parsed
parse_digits [] n = number n
parse_digits (c ∷ s) n =
    let m = n * 10 + (c - b'0') in
    let rest = parse_digits s m in
    if ltb c b'0' || ltb b'9' c
    then failed err_syntax
    else if leb (2 ^ 32) m
    then failed err_range
    else rest

unfoldable pub parse_uint32 : Bytes → Parsed
unfolding parse_digits
parse_uint32 [] = failed err_syntax
parse_uint32 (c ∷ s) = parse_digits (c ∷ s) 0
