-- ===== src/Steps/Actions.antt =====
-- The steps' functions: they read and change the shared state, and may fail. What was changed
-- before a failure stays changed.
use smart_home_edge.Prelude.{ℕ, zero, suc, String, Bool, true, false, Option, none, some}
use smart_home_edge.Onboard.{Step, Checked, answered, unanswered}
use smart_home_edge.Steps.{Problem, Answer, ok, err, State, Host}

abbrev pub Action : Type 0 → Type 0 → Type 0
Action D A = State D → Answer A × State D

module _ {D : Type 0} where
  abbrev pub pure : {A : Type 0} → A → Action D A
  pure a s = (ok a, s)

  abbrev pub raise : {A : Type 0} → Problem → Action D A
  raise e s = (err e, s)

  abbrev pub after : {A B : Type 0} → Answer A × State D → (A → Action D B) → Answer B × State D
  after (ok a, s) next = next a s
  after (err e, s) next = (err e, s)

  abbrev pub gets : {A : Type 0} → (State D → A) → Action D A
  gets f s = (ok (f s), s)

  abbrev pub modify : (State D → State D) → Action D (Unit {0})
  modify f s = (ok tt, f s)

  abbrev pub on_client : {A : Type 0} → State D → Answer A × D → Answer A × State D
  on_client s (r, d) = (r, record s { client = d })

  -- A call on the device.
  abbrev pub ask : {A : Type 0} → (D → Answer A × D) → Action D A
  ask call s = on_client s (call s.client)

  -- The error of a call, taken as a value.
  abbrev pub tried : {A : Type 0} → Answer A × State D → Answer (Answer A) × State D
  tried (r, s) = (ok r, s)

  abbrev pub attempt : {A : Type 0} → Action D A → Action D (Answer A)
  attempt m s = tried (m s)

  abbrev pub raise_if : Bool → Problem → Action D (Unit {0})
  raise_if true e = raise e
  raise_if false e = pure tt

  -- A check, and an act or a verification, as the engine takes them.
  abbrev pub outcome : Answer Bool × State D → Checked Problem × State D
  outcome (ok done, s) = (answered done, s)
  outcome (err e, s) = (unanswered e, s)

  abbrev pub failure : Answer (Unit {0}) × State D → Option Problem × State D
  failure (ok _, s) = (none, s)
  failure (err e, s) = (some e, s)

  abbrev pub step :
      String → Action D Bool → Action D (Unit {0}) → Action D (Unit {0}) → Step (State D) Problem
  step name check act verify = record {
    name = name;
    check = some (λ s. outcome (check s));
    act = some (λ s. failure (act s));
    verify = some (λ s. failure (verify s));
  }

infixl 5 ◌>>=◌ ◌>>◌
abbrev pub ◌>>=◌ : {D A B : Type 0} → Action D A → (A → Action D B) → Action D B
◌>>=◌ m f s = after (m s) f

abbrev pub ◌>>◌ : {D A B : Type 0} → Action D A → Action D B → Action D B
◌>>◌ m k = m >>= λ _. k

module _ {D : Type 0} (host : Host D) where
  -- A verification's loop: probe, and sleep two seconds before the next attempt.
  unfoldable pub poll : (attempts : ℕ) → Action D Bool → Problem → Action D (Unit {0})
  poll zero probe e = raise e
  poll (suc attempts) probe e = do
    done ← probe
    elim done [ true ↦ pure tt | false ↦ (ask (host.sleep 2000000000) >> poll attempts probe e) ]
