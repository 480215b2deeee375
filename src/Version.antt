-- ===== src/Version.antt =====
-- version/version.go: the build's version. `debug.ReadBuildInfo` is an argument.
pub mod Commit
use wc3ts.Prelude.{
  ℕ, Bool, true, false, List, [], ◌∷◌, ◌++◌, Option, none, some, Bytes, codes, bytes_discrete,
  holds, length, take, ltb, if◌then◌else◌,
}

abbrev pub short_commit_len : ℕ
short_commit_len = 7

pub record Info : Type 0 where
  pub version : Bytes
  pub commit : Bytes
  pub modified : Bool
  pub go_ver : Bytes

-- `debug.BuildInfo`: the Go version, and the settings as keys and values
pub record BuildInfo : Type 0 where
  pub go_version : Bytes
  pub settings : List (Bytes × Bytes)

pub shorten : Bytes → Bytes
shorten s = if ltb short_commit_len (length s) then take short_commit_len s else s

-- one round of the loop over the settings
pub apply_setting : Bytes × Bytes → Info → Info
unfolding shorten
apply_setting (k, v) info =
    if holds (bytes_discrete k (codes "vcs.revision"))
    then record info { commit = shorten v }
    else if holds (bytes_discrete k (codes "vcs.modified"))
    then record info { modified = holds (bytes_discrete v (codes "true")) }
    else info

pub apply_settings : List (Bytes × Bytes) → Info → Info
unfolding apply_setting
apply_settings [] info = info
apply_settings (s ∷ rest) info = apply_settings rest (apply_setting s info)

abbrev dev : Info
dev = record { version = codes "dev"; commit = []; modified = false; go_ver = [] }

unfoldable pub get_info : Option BuildInfo → Info
unfolding apply_settings
get_info none = dev
get_info (some bi) = apply_settings bi.settings (record dev { go_ver = bi.go_version })

unfoldable pub info_text : Info → Bytes
info_text i = elim i.commit [
  | [] ↦ i.version
  | c ∷ s ↦ if i.modified then (c ∷ s) ++ codes "-dirty" else c ∷ s
]
