-- ===== src/Tests/Settings.antt =====
-- The version of the build.
use wc3ts.Prelude.{◌≡◌, refl, [], ◌∷◌, some, codes, bytes_discrete, ℕ_discrete}
use wc3ts.Version.{BuildInfo, get_info, info_text}

abbrev build : BuildInfo
build = record {
  go_version = codes "go1.25.5";
  settings = (codes "vcs.revision", codes "0123456789") ∷ (codes "vcs.modified", codes "true") ∷ [];
}

info_text_runs : info_text (get_info (some build)) ≡ codes "0123456-dirty"
unfolding info_text get_info bytes_discrete ℕ_discrete
info_text_runs = refl
