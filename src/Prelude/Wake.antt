-- ===== src/Prelude/Wake.antt =====
-- A loop that waits for one of two things: that there is something to do, or that its context is
-- cancelled. If both are so Go takes either, so the order of a list is any.
use mathlib.Core.Path.{◌≡◌, refl, ap}
use mathlib.Core.Bool.{Bool, true, false}
use mathlib.Core.List.{List, [], ◌∷◌, map}
use mathlib.Core.Logic.{◌↔◌}

pub data Wake (A : Type 0) : Type 0 where
  woken : A → Wake A
  cancelled : Wake A

module _ {A B : Type 0} where
  -- What is done, and whether the loop has returned.
  pub until_cancelled : (A → B) → List (Wake A) → List B × Bool
  until_cancelled f [] = ([], false)
  until_cancelled f (cancelled ∷ rest) = ([], true)
  until_cancelled f (woken a ∷ rest) =
      let (done, returned) = until_cancelled f rest in (f a ∷ done, returned)

module _ {A : Type 0} where
  -- What there was to do before the context was cancelled.
  unfoldable pub before_cancel : List (Wake A) → List A
  before_cancel [] = []
  before_cancel (cancelled ∷ rest) = []
  before_cancel (woken a ∷ rest) = a ∷ before_cancel rest

  pub IsCancelled : List (Wake A) → Type 0
  IsCancelled [] = ⊥
  IsCancelled (cancelled ∷ rest) = Unit
  IsCancelled (woken a ∷ rest) = IsCancelled rest

module _ {A B : Type 0} (f : A → B) where
  pub until_cancelled_lem :
      (l : List (Wake A))
      → ((until_cancelled f l).0 ≡ map f (before_cancel l))
        × ((until_cancelled f l).1 ≡ true ↔ IsCancelled l)
  unfolding until_cancelled before_cancel IsCancelled
  until_cancelled_lem [] = (refl, (cc, λ h. absurd h))
  until_cancelled_lem (cancelled ∷ rest) = (refl, (λ e. tt, λ h. refl))
  until_cancelled_lem (woken a ∷ rest) =
      let (done, ends) = until_cancelled_lem rest in (ap (◌∷◌ (f a)) done, ends)
