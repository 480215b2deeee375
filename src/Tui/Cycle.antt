-- ===== src/Tui/Cycle.antt =====
-- tui/update.go: `cycleVersion`.
use mathlib.Core.List.{mem-cons_self, mem-cons_of_mem, not-mem-nil, mem-cons}
use mathlib.Core.Logic.Or
use wc3ts.Prelude.{
  ℕ, ◌≡◌, refl, ap, Bool, true, false, not, [], ◌∷◌, Mem, arith, ℕ_discrete, if◌then◌else◌, sym,
  subst, ◌≢◌, ◌==◌,
}
use wc3ts.Config.{supported_versions}
use wc3ts.Tui.{
  Tables, Model, version_called, next_version, version_index, cycle_index, cycle_version,
}

-- A version and what comes before and behind it in the cycle.
next_version-supported :
    (forward : Bool)
    → (next_version forward 26 ≡ (if forward then 27 else 28))
      × (next_version forward 27 ≡ (if forward then 28 else 26))
      × (next_version forward 28 ≡ (if forward then 26 else 27))
unfolding next_version version_index cycle_index
next_version-supported true = (refl, refl, refl)
next_version-supported false = (refl, refl, refl)

differs : (n v : ℕ) → v ≢ n → (n == v) ≡ false
differs n v h = ground arith

-- From any other version a step leads to the first one.
next_version-other :
    (forward : Bool) (v : ℕ) → v ≢ 26 → v ≢ 27 → v ≢ 28 → next_version forward v ≡ 26
unfolding next_version version_index
next_version-other forward v a b c =
    rw (differs 26 v a, differs 27 v b, differs 28 v c, cycle_index) refl

mem_26 : Mem 26 supported_versions
mem_26 = mem-cons_self

mem_27 : Mem 27 supported_versions
mem_27 = mem-cons_of_mem 26 mem-cons_self

mem_28 : Mem 28 supported_versions
mem_28 = mem-cons_of_mem 26 (mem-cons_of_mem 27 mem-cons_self)

if-mem :
    (b : Bool) (x y : ℕ)
    → Mem x supported_versions
    → Mem y supported_versions
    → Mem (if b then x else y) supported_versions
if-mem true x y m n = m
if-mem false x y m n = n

stays_supported : (forward : Bool) (v : ℕ) → Mem (next_version forward v) supported_versions
stays_supported forward v =
    let (a, b, c) = next_version-supported forward in
    elim (ℕ_discrete v 26) [
      | yes e ↦ rw (e, a) (if-mem forward 27 28 mem_27 mem_28)
      | no n26 ↦ elim (ℕ_discrete v 27) [
        | yes e ↦ rw (e, b) (if-mem forward 28 26 mem_28 mem_26)
        | no n27 ↦ elim (ℕ_discrete v 28) [
          | yes e ↦ rw (e, c) (if-mem forward 26 27 mem_26 mem_27)
          | no n28 ↦ rw (next_version-other forward v n26 n27 n28) mem_26
        ]
      ]
    ]

undone_26 : (forward : Bool) → next_version (not forward) (next_version forward 26) ≡ 26
unfolding next_version version_index cycle_index
undone_26 true = refl
undone_26 false = refl

undone_27 : (forward : Bool) → next_version (not forward) (next_version forward 27) ≡ 27
unfolding next_version version_index cycle_index
undone_27 true = refl
undone_27 false = refl

undone_28 : (forward : Bool) → next_version (not forward) (next_version forward 28) ≡ 28
unfolding next_version version_index cycle_index
undone_28 true = refl
undone_28 false = refl

undone :
    (forward : Bool) (v : ℕ)
    → Mem v supported_versions
    → next_version (not forward) (next_version forward v) ≡ v
undone forward v m =
    let at = λ (w : ℕ) (e : v ≡ w) (u : next_version (not forward) (next_version forward w) ≡ w).
      subst (λ x. next_version (not forward) (next_version forward x) ≡ x) (sym e) u in
    Or.elim (hlevel ℕ_discrete) (mem-cons.0 m) (λ e. at 26 e (undone_26 forward))
      (λ m'.
        Or.elim (hlevel ℕ_discrete) (mem-cons.0 m') (λ e. at 27 e (undone_27 forward))
          (λ m''.
            Or.elim (hlevel ℕ_discrete) (mem-cons.0 m'') (λ e. at 28 e (undone_28 forward))
              (λ rest. absurd (not-mem-nil rest))))

-- A step from any version leads to a supported one, of which the callback is told if there is one;
-- and a step from a supported version is undone by a step the other way.
pub cycle_version_lem :
    (ops : Tables) (forward : Bool) (m : Model ops)
    → Mem (cycle_version ops forward m).0.version.version supported_versions
      × ((cycle_version ops forward m).1 ≡ (
          if m.version_cb
          then version_called (cycle_version ops forward m).0.version.version ∷ []
          else []))
      × (Mem m.version.version supported_versions
          → (cycle_version ops (not forward) (cycle_version ops forward m).0).0 ≡ m)
unfolding cycle_version
cycle_version_lem ops forward m = (
  stays_supported forward m.version.version,
  refl,
  λ s.
      ap (λ v. record m { version = record m.version { version = v } })
        (undone forward m.version.version s),
)
