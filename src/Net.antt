-- ===== src/Net.antt =====
-- What the program uses of Go's `net/netip` and `net`: IP addresses, their print, and the tests on
-- them. A zone is never set: addresses come from `AddrFromSlice` and from Tailscale's node lists.
pub mod Text
pub mod Ip
use wc3ts.Prelude.{
  ℕ, zero, suc, ◌+◌, ◌-◌, ◌*◌, ◌/◌, ◌%◌, ◌≡◌, refl, Bool, true, false, ◌&&◌, ◌||◌, not, List, [],
  ◌∷◌, ◌++◌, Option, none, some, Bytes, codes, bytes_discrete, holds, ltb, leb, ◌==◌, if◌then◌else◌,
  length, take, drop, ℕ_discrete,
}
use wc3ts.Text.{decimal}

-- `netip.Addr`: the zero value, four bytes, or sixteen bytes
pub data Addr : Type 0 where
  invalid : Addr
  v4 : ℕ → ℕ → ℕ → ℕ → Addr
  v6 : Bytes → Addr

unfoldable pub addr_discrete : Discrete Addr
unfolding bytes_discrete
addr_discrete = hlevel (ℕ_discrete, bytes_discrete)

abbrev pub is4 : Addr → Bool
is4 (v4 a b c d) = true
is4 _ = false

abbrev pub is_valid : Addr → Bool
is_valid invalid = false
is_valid _ = true

-- `netip.AddrFromSlice`: four or sixteen bytes
unfoldable pub addr_from_slice : Bytes → Option Addr
addr_from_slice (a ∷ b ∷ c ∷ d ∷ []) = some (v4 a b c d)
addr_from_slice s = if length s == 16 then some (v6 s) else none

-- `Addr.AsSlice`
unfoldable pub as_slice : Addr → Bytes
as_slice invalid = []
as_slice (v4 a b c d) = a ∷ b ∷ c ∷ d ∷ []
as_slice (v6 s) = s

abbrev mapped_prefix : Bytes
mapped_prefix = 0 ∷ 0 ∷ 0 ∷ 0 ∷ 0 ∷ 0 ∷ 0 ∷ 0 ∷ 0 ∷ 0 ∷ 255 ∷ 255 ∷ []

pub is_mapped : Bytes → Bool
unfolding bytes_discrete ℕ_discrete
is_mapped s = holds (bytes_discrete (take 12 s) mapped_prefix)

abbrev first_is_127 : Bytes → Bool
first_is_127 [] = false
first_is_127 (a ∷ s) = a == 127

abbrev loopback6 : Bytes
loopback6 = 0 ∷ 0 ∷ 0 ∷ 0 ∷ 0 ∷ 0 ∷ 0 ∷ 0 ∷ 0 ∷ 0 ∷ 0 ∷ 0 ∷ 0 ∷ 0 ∷ 0 ∷ 1 ∷ []

-- `Addr.IsLoopback`: 127.0.0.0/8, also when it is mapped into IPv6, or ::1
unfoldable pub is_loopback : Addr → Bool
unfolding is_mapped bytes_discrete ℕ_discrete
is_loopback invalid = false
is_loopback (v4 a b c d) = a == 127
is_loopback (v6 s) =
    if is_mapped s then first_is_127 (drop 12 s) else holds (bytes_discrete s loopback6)

unfoldable pub text4 : ℕ → ℕ → ℕ → ℕ → Bytes
text4 a b c d = decimal a ++ b'.' ∷ (decimal b ++ b'.' ∷ (decimal c ++ b'.' ∷ decimal d))

text_mapped : Bytes → Bytes
unfolding text4
text_mapped (a ∷ b ∷ c ∷ d ∷ []) = codes "::ffff:" ++ text4 a b c d
text_mapped s = codes "::ffff:"

-- the sixteen-bit groups of an IPv6 address
pub groups : Bytes → List ℕ
groups (a ∷ b ∷ s) = (a * 256 + b) ∷ groups s
groups s = []

pub hex_digit : ℕ → ℕ
hex_digit d = if ltb d 10 then b'0' + d else b'a' + (d - 10)

-- lower-case hexadecimal with no leading zeros
hex : ℕ → Bytes
unfolding hex_digit
hex n =
    if ltb n 16
    then hex_digit n ∷ []
    else if ltb n 256
    then hex_digit (n / 16) ∷ hex_digit (n % 16) ∷ []
    else if ltb n 4096
    then hex_digit (n / 256) ∷ hex_digit (n / 16 % 16) ∷ hex_digit (n % 16) ∷ []
    else hex_digit (n / 4096)
      ∷ hex_digit (n / 256 % 16)
      ∷ hex_digit (n / 16 % 16)
      ∷ hex_digit (n % 16)
      ∷ []

zeros : List ℕ → ℕ
zeros [] = 0
zeros (g ∷ gs) = let more = zeros gs in if g == 0 then suc more else 0

-- the first of the longest runs of two or more zero groups: its place and its length
longest : ℕ → List ℕ → ℕ × ℕ → ℕ × ℕ
unfolding zeros
longest i [] best = best
longest i (g ∷ gs) (s, l) =
    let run = zeros (g ∷ gs) in
    longest (suc i) gs (if leb 2 run && ltb l run then (i, run) else (s, l))

colons : List ℕ → Bytes
unfolding hex
colons [] = []
colons (g ∷ []) = hex g
colons (g ∷ h ∷ gs) = hex g ++ b':' ∷ colons (h ∷ gs)

pub text6 : List ℕ → Bytes
unfolding longest colons
text6 gs =
    let (s, l) = longest 0 gs (0, 0) in
    if l == 0 then colons gs else colons (take s gs) ++ b':' ∷ b':' ∷ colons (drop (s + l) gs)

-- `Addr.String`
unfoldable pub addr_text : Addr → Bytes
unfolding text4 is_mapped text_mapped groups text6
addr_text invalid = codes "invalid IP"
addr_text (v4 a b c d) = text4 a b c d
addr_text (v6 s) = if is_mapped s then text_mapped (drop 12 s) else text6 (groups s)

has_colon : Bytes → Bool
has_colon [] = false
has_colon (c ∷ s) = c == b':' || has_colon s

-- `net.JoinHostPort`
unfoldable pub join_host_port : Bytes → Bytes → Bytes
unfolding has_colon
join_host_port host port =
    if has_colon host then b'[' ∷ (host ++ b']' ∷ b':' ∷ port) else host ++ b':' ∷ port

-- A `net.UDPAddr`: the bytes of an IP address, and a port.
pub record UdpAddr : Type 0 where
  pub ip : Bytes
  pub port : ℕ
