-- ===== src/Steps/Rules.antt =====
-- Rules for what holds after a step's functions (smart-home-agent/internal/onboard/steps.go).
use smart_home_edge.Prelude.{◌≡◌, refl, Bool, true, false}
use smart_home_edge.Steps.{Problem, Answer, ok, err, State}
use smart_home_edge.Steps.Actions.{Action, after, raise_if}

module _ {D : Type 0} where
  -- What a function that succeeds leaves.
  abbrev pub Holds : {A : Type 0} → (A → State D → Type 0) → Answer A × State D → Type 0
  Holds Q (ok a, s) = Q a s
  Holds Q (err e, s) = Unit

  unfoldable pub Anything : State D → Type 0
  Anything s = Unit

  pub anything : {A : Type 0} (r : Answer A × State D) → Holds (λ _ t. Anything t) r
  unfolding Anything
  anything (ok a, s) = tt
  anything (err e, s) = tt

  pub Holds-after :
      {A B : Type 0} (P : A → State D → Type 0) (Q : B → State D → Type 0) (r : Answer A × State D)
      (k : A → Action D B)
      → Holds P r
      → ((a : A) (t : State D) → P a t → Holds Q (k a t))
      → Holds Q (after r k)
  Holds-after P Q (ok a, s) k h next = next a s h
  Holds-after P Q (err e, s) k h next = tt

  pub Holds-unless :
      (Q : Unit {0} → State D → Type 0) (b : Bool) (e : Problem) (s : State D)
      → (b ≡ false → Q tt s)
      → Holds Q (raise_if b e s)
  Holds-unless Q true e s h = tt
  Holds-unless Q false e s h = h refl

  pub Holds-branch :
      {A : Type 0} (Q : A → State D → Type 0) (b : Bool) (m k : Action D A) (s : State D)
      → (b ≡ true → Holds Q (m s))
      → (b ≡ false → Holds Q (k s))
      → Holds Q ((elim b as (λ _. Action D A) [ true ↦ m | false ↦ k ]) s)
  Holds-branch Q true m k s h l = h refl
  Holds-branch Q false m k s h l = l refl
