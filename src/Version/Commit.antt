-- ===== src/Version/Commit.antt =====
-- version/version.go: the commit and the text of a version.
use wc3ts.Prelude.{
  ◌≤◌, ◌≡◌, ◌≢◌, refl, sym, get_elem?, Bool-cases, inl, inr, holds-no, of_holds, ap, ◌∙◌, Bool,
  true, false, List, [], ◌∷◌, ◌++◌, Option, none, some, Bytes, codes, bytes_discrete, holds, length,
  take, arith, length-take, take_all, append-nil, if◌then◌else◌,
}
use wc3ts.Version.{Info, BuildInfo, shorten, apply_setting, apply_settings, get_info, info_text}

-- The value of the last setting with the key, or else the given one.
pub last_value : Bytes → List (Bytes × Bytes) → Option Bytes → Option Bytes
last_value k [] o = o
last_value k ((j, v) ∷ rest) o =
    last_value k rest (if holds (bytes_discrete j k) then some v else o)

abbrev revision : Bytes
revision = codes "vcs.revision"

abbrev modified_key : Bytes
modified_key = codes "vcs.modified"

-- The commit and the mark that some settings give.
abbrev pub shown_commit : Bytes → Option Bytes → Bytes
shown_commit before none = before
shown_commit before (some v) = take 7 v

abbrev pub is_true : Bool → Option Bytes → Bool
is_true before none = before
is_true before (some v) = holds (bytes_discrete v (codes "true"))

shorten-take : (s : Bytes) → shorten s ≡ take 7 s
unfolding shorten
shorten-take s = ground (arith, take_all 7 s)

commit-apply_settings :
    (ss : List (Bytes × Bytes)) (info : Info) (o : Option Bytes) (before : Bytes)
    → info.commit ≡ shown_commit before o
    → (apply_settings ss info).commit ≡ shown_commit before (last_value revision ss o)
unfolding apply_settings last_value
commit-apply_settings [] info o before e = e
commit-apply_settings ((k, v) ∷ rest) info o before e =
    commit-apply_settings rest (apply_setting (k, v) info)
      (if holds (bytes_discrete k revision) then some v else o) before
      (unfold apply_setting in ground (arith, shorten-take v))

keys_differ : revision ≢ modified_key
keys_differ e = ground (arith, ap (λ s. get_elem? s 4) e)

one_modified :
    (k v : Bytes) (info : Info) (o : Option Bytes) (before : Bool)
    → info.modified ≡ is_true before o
    → (apply_setting (k, v) info).modified
      ≡ is_true before (if holds (bytes_discrete k modified_key) then some v else o)
unfolding apply_setting
one_modified k v info o before e = elim (Bool-cases (holds (bytes_discrete k revision))) [
  | inl h ↦
      rw
        (
          h,
          holds-no (bytes_discrete k modified_key)
              (λ q. keys_differ (sym (of_holds (bytes_discrete k revision) h) ∙ q)),
        )
        e
  | inr h ↦ elim (Bool-cases (holds (bytes_discrete k modified_key))) [
    | inl g ↦ rw (h, g) refl
    | inr g ↦ rw (h, g) e
  ]
]

modified-apply_settings :
    (ss : List (Bytes × Bytes)) (info : Info) (o : Option Bytes) (before : Bool)
    → info.modified ≡ is_true before o
    → (apply_settings ss info).modified ≡ is_true before (last_value modified_key ss o)
unfolding apply_settings last_value
modified-apply_settings [] info o before e = e
modified-apply_settings ((k, v) ∷ rest) info o before e =
    modified-apply_settings rest (apply_setting (k, v) info)
      (if holds (bytes_discrete k modified_key) then some v else o) before
      (one_modified k v info o before e)

version-apply_settings :
    (ss : List (Bytes × Bytes)) (info : Info) → (apply_settings ss info).version ≡ info.version
unfolding apply_settings
version-apply_settings [] info = refl
version-apply_settings ((k, v) ∷ rest) info =
    version-apply_settings rest (apply_setting (k, v) info) ∙ unfold apply_setting in ground arith

text_cases :
    (i : Info) (c : Bytes) (m : Bool)
    → i.commit ≡ c
    → i.modified ≡ m
    → (c ≡ [] → info_text i ≡ i.version)
      × (c ≢ [] → info_text i ≡ c ++ (if m then codes "-dirty" else []))
unfolding info_text
text_cases i [] m e f = (λ _. rw (e, info_text) refl, λ ne. absurd (ne refl))
text_cases i (x ∷ s) true e f = (λ p. cc, λ _. ground arith)
text_cases i (x ∷ s) false e f = (λ p. cc, λ _. ground (arith, append-nil (x ∷ s)))

shown_commit-le : (o : Option Bytes) → length (shown_commit [] o) ≤ 7
shown_commit-le none = omega arith
shown_commit-le (some v) = omega (arith, length-take 7 v)

-- The version text of a build: without a revision it is `dev`; with one it is the first seven
-- bytes of the last revision among the settings, marked `-dirty` if the last `vcs.modified` setting
-- is `true`. The commit is never longer than seven bytes.
pub info_text_lem :
    (bi : BuildInfo)
    → (length (get_info (some bi)).commit ≤ 7)
      × (shown_commit [] (last_value revision bi.settings none) ≡ []
          → info_text (get_info (some bi)) ≡ codes "dev")
      × (shown_commit [] (last_value revision bi.settings none) ≢ []
          → info_text (get_info (some bi))
            ≡ shown_commit [] (last_value revision bi.settings none)
              ++ (if is_true false (last_value modified_key bi.settings none)
                  then codes "-dirty"
                  else []))
unfolding get_info
info_text_lem bi =
    let start : Info = record {
      version = codes "dev";
      commit = [];
      modified = false;
      go_ver = bi.go_version;
    } in
    let commit = commit-apply_settings bi.settings start none [] refl in
    let modified = modified-apply_settings bi.settings start none false refl in
    let (clean, dirty) = text_cases (apply_settings bi.settings start) _ _ commit modified in
    (
      rw commit (shown_commit-le (last_value revision bi.settings none)),
      λ e. clean e ∙ version-apply_settings bi.settings start,
      dirty,
    )
