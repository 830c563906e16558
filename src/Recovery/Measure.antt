-- ===== src/Recovery/Measure.antt =====
-- What brings the connect loop closer to a deadline
-- (smart-home-agent/internal/agent/agent.go: `recoverCredentials`).
use smart_home_edge.Prelude.{
  ◌≤◌, ◌<◌, ◌+◌, ◌-◌, ℕ, Option, none, some, arith, ltb, if◌then◌else◌, Bool, true, false,
  Bool-cases, not, inl, inr, ◌&&◌, ◌==◌,
}
use smart_home_edge.Provision.{Credentials, Disk, Result, ok, err}
use smart_home_edge.Recovery.{
  Identity, Surroundings, cooled, tell, shown, attempting, recovered, recover_credentials,
  surface_claim_code, recover_cooldown,
}

-- How far the clock and the last recovery are from two seconds after a deadline.
unfoldable pub ahead : ℕ → ℕ → Option ℕ → ℕ
ahead deadline clock none = (deadline + 2000000000 - clock) + (deadline + 3000000000)
ahead deadline clock (some last) = (deadline + 2000000000 - clock) + (deadline + 2000000000 - last)

-- The last recovery is not in the future.
unfoldable pub Earlier : Option ℕ → ℕ → Type 0
Earlier none now = Unit
Earlier (some last) now = last ≤ now

-- A recovery that succeeds comes a second closer; any other does not fall back.
unfoldable pub Closer : ℕ → ℕ → Option ℕ → Identity × Bool → Type 0
Closer deadline clock last (r, true) =
    (ahead deadline r.clock r.last_recover + 1000000000 ≤ ahead deadline clock last)
    × Earlier r.last_recover r.clock
Closer deadline clock last (r, false) =
    (clock ≤ r.clock)
    × (ahead deadline clock r.last_recover ≤ ahead deadline clock last)
    × Earlier r.last_recover r.clock

module _ (env : Surroundings) (deadline : ℕ) where
  cooled-Closer :
      (clock now takes : ℕ) (last : Option ℕ)
      → clock < deadline
      → clock ≤ now
      → (ahead deadline (cooled env now last + takes) (some (cooled env now last)) + 1000000000
          ≤ ahead deadline clock last)
        × (clock ≤ cooled env now last + takes)
        × (ahead deadline clock (some (cooled env now last)) ≤ ahead deadline clock last)
  unfolding ahead
  cooled-Closer clock now takes none early on = (omega arith, omega arith, omega arith)
  cooled-Closer clock now takes (some last) early on =
      elim (Bool-cases (ltb now (last + recover_cooldown))) [
        | inl t ↦ rw t (ground arith, ground arith, ground arith)
        | inr f ↦ rw f (ground arith, ground arith, ground arith)
      ]

  if_Closer :
      (clock : ℕ) (last : Option ℕ) (t : Bool) (x y : Identity × Bool)
      → Closer deadline clock last x
      → Closer deadline clock last y
      → Closer deadline clock last (if t then x else y)
  if_Closer clock last true x y h k = h
  if_Closer clock last false x y h k = k

  -- What the agent shows does not move its clock.
  shown-Closer :
      (clock : ℕ) (last : Option ℕ) (s : Identity)
      → Closer deadline clock last (s, true)
      → Closer deadline clock last (surface_claim_code env s, true)
  unfolding surface_claim_code Closer
  shown-Closer clock last s h = when_shown env.home_assistant
    where
      if_shown :
          (t : Bool)
          → Closer deadline clock last (if t then s else tell (shown s.creds.claim_code) s, true)
      if_shown true = h
      if_shown false = h

      when_shown :
          (here : Bool)
          → Closer deadline clock last (
            if not here
                then s
                else if s.creds.claim_code == ""
                then s
                else tell (shown s.creds.claim_code) s,
            true,
          )
      when_shown false = h
      when_shown true = if_shown (s.creds.claim_code == "")

  recovered-Closer :
      (clock now : ℕ) (s : Identity) (r : Disk × Result Credentials)
      → clock < deadline
      → clock ≤ now
      → Closer deadline clock s.last_recover
          (recovered env (attempting env s (cooled env now s.last_recover)) r)
  unfolding Closer Earlier
  recovered-Closer clock now s (disk, ok c) early on = if_kept (c.claim_status == "claimed") _ (
    (cooled-Closer clock now (env.takes (cooled env now s.last_recover)) s.last_recover early on).0,
    omega arith,
  )
    where
      if_kept :
          (t : Bool) (x : Identity)
          → Closer deadline clock s.last_recover (x, true)
          → Closer deadline clock s.last_recover (if t then x else surface_claim_code env x, true)
      if_kept true x h = h
      if_kept false x h = shown-Closer clock s.last_recover x h
  recovered-Closer clock now s (disk, err e) early on =
      let closer =
        cooled-Closer clock now (env.takes (cooled env now s.last_recover)) s.last_recover early
          on in
      (closer.1, closer.2, omega arith)

  cooled-le : (now : ℕ) (o : Option ℕ) → (now ≤ cooled env now o) × Earlier o (cooled env now o)
  unfolding Earlier
  cooled-le now none = (omega arith, tt)
  cooled-le now (some last) = elim (Bool-cases (ltb now (last + recover_cooldown))) [
    | inl t ↦ rw t (ground arith, ground arith)
    | inr f ↦ rw f (ground arith, ground arith)
  ]

  pub recover_credentials-Closer :
      (clock : ℕ) (s : Identity)
      → clock < deadline
      → clock ≤ s.clock
      → Closer deadline clock s.last_recover (recover_credentials env s)
  unfolding recover_credentials Closer
  recover_credentials-Closer clock s early on =
      let later = cooled-le s.clock s.last_recover in
      if_Closer clock s.last_recover
        (ltb s.clock (cooled env s.clock s.last_recover)
          && env.done_by (cooled env s.clock s.last_recover))
        (record s { clock = cooled env s.clock s.last_recover }, false) _
        (omega (arith, on, later.0), omega arith, later.1)
        (recovered-Closer clock s.clock s _ early on)
