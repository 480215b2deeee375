-- ===== src/Net/Ip.antt =====
-- Go's `net.IP` and `net.UDPAddr`: IPv4 addresses in four or in sixteen bytes, and the prints.
use wc3ts.Prelude.{
  ℕ, ◌/◌, ◌%◌, ◌+◌, ◌-◌, ◌&&◌, [], ◌∷◌, Option, none, some, Bytes, length, drop, ◌==◌, ltb,
  if◌then◌else◌,
}
use wc3ts.Text.{decimal}
use wc3ts.Net.{UdpAddr, text4, is_mapped, groups, text6, hex_digit, join_host_port}

-- `IP.To4`
unfoldable pub to4 : Bytes → Option Bytes
unfolding is_mapped
to4 ip =
    if length ip == 4
    then some ip
    else if length ip == 16 && is_mapped ip
    then some (drop 12 ip)
    else none

pub text_of : Option Bytes → Bytes → Bytes
unfolding groups text6
text_of (some (a ∷ b ∷ c ∷ d ∷ [])) ip = text4 a b c d
text_of _ ip = text6 (groups ip)

-- `UDPAddr.String`, for an IP address of four or of sixteen bytes
abbrev pub udp_text : UdpAddr → Bytes
unfolding to4 text_of
udp_text a = join_host_port (text_of (to4 a.ip) a.ip) (decimal a.port)

-- `%x` of bytes
abbrev pub hex_bytes : Bytes → Bytes
hex_bytes [] = []
hex_bytes (c ∷ s) = hex_digit (c / 16) ∷ hex_digit (c % 16) ∷ hex_bytes s

-- a digit of `%X`
abbrev upper_hex_digit : ℕ → ℕ
upper_hex_digit d = if ltb d 10 then b'0' + d else b'A' + (d - 10)

-- `%02X` of a byte
abbrev pub upper_hex : ℕ → Bytes
upper_hex c = upper_hex_digit (c / 16) ∷ upper_hex_digit (c % 16) ∷ []
