-- ===== src/Common/Steps.antt =====
-- Any number of steps of a relation, and the changes of a state that other steps may come before and after.
use mathlib.Core.Path.{◌≡◌, subst}
use mathlib.Core.Logic.{◌⊎◌, inl, inr}

pub data StepsOf {A : Type 0} (Step : A → A → Type 0) (a : A) : A → Type 0 where
  here : StepsOf Step a a
  next : {b c : A} → StepsOf Step a b → Step b c → StepsOf Step a c

-- A change, made or not, with steps of a relation before and after it.
abbrev pub ChangedBy : {A : Type 0} → (A → A → Type 0) → (A → A) → A → A → Type 0
ChangedBy {A} Step f a after =
    (before : A) × (behind : A) × StepsOf Step a before
    × ((behind ≡ before) ⊎ (behind ≡ f before))
    × StepsOf Step behind after

module _ {A : Type 0} {Step : A → A → Type 0} where
  pub Steps-trans : {a b c : A} → StepsOf Step a b → StepsOf Step b c → StepsOf Step a c
  Steps-trans p here = p
  Steps-trans p (next q s) = next (Steps-trans p q) s

-- A step of one relation as one of another.
module _ {A : Type 0} {Step Other : A → A → Type 0}
    (as_step : (a b : A) → Other a b → Step a b) where
  pub Steps-lift : {a b : A} → StepsOf Other a b → StepsOf Step a b
  Steps-lift here = here
  Steps-lift (next p s) = next (Steps-lift p) (as_step _ _ s)

  pub Changed-Steps :
      (f : A → A) (a after : A)
      → ((mid : A) → StepsOf Step mid (f mid))
      → ChangedBy Other f a after
      → StepsOf Step a after
  Changed-Steps f a after h (before, behind, p, inl same, q) =
      Steps-trans (Steps-lift p) (subst (λ b. StepsOf Step b after) same (Steps-lift q))
  Changed-Steps f a after h (before, behind, p, inr changed, q) =
      Steps-trans (Steps-lift p)
        (Steps-trans (h before) (subst (λ b. StepsOf Step b after) changed (Steps-lift q)))
