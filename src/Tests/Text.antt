-- ===== src/Tests/Text.antt =====
-- Texts, addresses and versions.
use wc3ts.Prelude.{◌≡◌, refl, true, false, [], ◌∷◌, ◌++◌, codes, arith}
use wc3ts.Text.{
  is_space, trim_space, parse_uint32, cut_prefix, decimal, number, failed, err_range, err_syntax,
}
use wc3ts.Net.{v4, v6, addr_text, is_loopback}
use wc3ts.Config.{parse_version, format_version}
use wc3ts.Config.Versions.{parse-format_version}

parse_uint32_runs :
    (parse_uint32 (codes "4294967295") ≡ number 4294967295)
    × (parse_uint32 (codes "4294967296") ≡ failed err_range)
    × (parse_uint32 (codes "+1") ≡ failed err_syntax)
unfolding parse_uint32
parse_uint32_runs = (refl, refl, refl)

trim_space_runs : trim_space (codes " a b ") ≡ codes "a b"
unfolding trim_space
trim_space_runs = refl

addr_text_runs :
    (addr_text (v4 100 64 0 1) ≡ codes "100.64.0.1")
    × (addr_text (v6 (0 ∷ 0 ∷ 0 ∷ 0 ∷ 0 ∷ 0 ∷ 0 ∷ 0 ∷ 0 ∷ 0 ∷ 0 ∷ 0 ∷ 0 ∷ 0 ∷ 0 ∷ 1 ∷ []))
        ≡ codes "::1")
    × (addr_text (v6 (32 ∷ 1 ∷ 13 ∷ 184 ∷ 0 ∷ 0 ∷ 0 ∷ 1 ∷ 0 ∷ 0 ∷ 0 ∷ 0 ∷ 0 ∷ 0 ∷ 0 ∷ 10 ∷ []))
        ≡ codes "2001:db8:0:1::a")
    × (addr_text (v6 (0 ∷ 0 ∷ 0 ∷ 0 ∷ 0 ∷ 0 ∷ 0 ∷ 0 ∷ 0 ∷ 0 ∷ 255 ∷ 255 ∷ 127 ∷ 0 ∷ 0 ∷ 1 ∷ []))
        ≡ codes "::ffff:127.0.0.1")
unfolding addr_text decimal
addr_text_runs = (refl, refl, refl, refl)

is_loopback_runs :
    (is_loopback (v6 (0 ∷ 0 ∷ 0 ∷ 0 ∷ 0 ∷ 0 ∷ 0 ∷ 0 ∷ 0 ∷ 0 ∷ 0 ∷ 0 ∷ 0 ∷ 0 ∷ 0 ∷ 1 ∷ [])) ≡ true)
    × (is_loopback (v4 100 64 0 1) ≡ false)
unfolding is_loopback
is_loopback_runs = (refl, refl)

parse_version_runs :
    (parse_version (codes " 1.26 ") ≡ number 26)
    × (parse_version (codes "28") ≡ number 28)
    × (parse_version (codes "1.x") ≡ failed err_syntax)
unfolding parse_version trim_space cut_prefix parse_uint32
parse_version_runs = (refl, refl, refl)

parse-format_version_example :
    (parse_version (codes " " ++ (format_version 27 ++ [])) ≡ number 27)
    × (parse_version (codes " " ++ (decimal 27 ++ [])) ≡ number 27)
unfolding is_space
parse-format_version_example = parse-format_version 27 (codes " ") [] (omega arith) (refl, tt) tt
