-- ===== src/Recovery/Deadline.antt =====
-- The connect loop comes to an end
-- (smart-home-agent/internal/agent/agent.go: `connectBroker`).
use smart_home_edge.Prelude.{
  ◌≡◌, refl, ◌≤◌, ◌<◌, ◌+◌, ◌*◌, ℕ, zero, suc, Option, none, some, [], arith, All, if◌then◌else◌,
  ◌-◌, ◌||◌, List, ◌∷◌, ltb, All-if, All-append, Bool, true, false, Bool-cases, leb, leb→le,
  leb-false→lt, inl, inr,
}
use smart_home_edge.Recovery.{
  Identity, Surroundings, Verdict, accepted, auth_rejected, unreachable, cooled, recover_cooldown,
  recover_credentials,
}
use smart_home_edge.Recovery.Connect.{
  Connecting, connect_broker, next_connect_backoff, judged, after_recovery, after_waits, cool_down,
  paused, dialled, at, connect_initial_backoff,
}
use smart_home_edge.Recovery.Measure.{ahead, Earlier, Closer, recover_credentials-Closer}

-- The loop has returned, and no wait was longer than thirty seconds.
unfoldable pub Ended : Connecting → Type 0
Ended (s, waits, r) = ((connected : Bool) × (r ≡ some connected)) × All (λ w. w ≤ 30000000000) waits

module _ (env : Surroundings) (deadline : ℕ) where
  module _ (closed : (t : ℕ) → deadline ≤ t → env.done_by t ≡ true) where
    paused-Ended :
        (b : ℕ) (s : Identity) (later : Identity → Connecting)
        → b ≤ 30000000000
        → Ended (later (at (s.clock + b) s))
        → Ended (paused env b s later)
    unfolding Ended
    paused-Ended b s later small h =
        let rest = either (env.done_by s.clock || env.done_by (s.clock + b)) in
        (rest.0, (small, rest.1))
      where
        either : (t : Bool) → Ended (if t then (s, [], some false) else later (at (s.clock + b) s))
        either true = ((false, refl), tt)
        either false = h

    -- The wait before a recovery is the rest of its cool-down.
    cool_down-le :
        (s : Identity)
        → Earlier s.last_recover s.clock
        → All (λ w. w ≤ 30000000000) (cool_down env s)
    unfolding cool_down Earlier
    cool_down-le s past = of_last s.last_recover past
      where
        of_last :
            (o : Option ℕ)
            → Earlier o s.clock
            → All
                (λ w. w ≤ 30000000000)
                (if ltb s.clock (cooled env s.clock o)
                  then (cooled env s.clock o - s.clock) ∷ []
                  else [])
        of_last none h = elim (Bool-cases (ltb s.clock s.clock)) [
          | inl t ↦ rw t (omega arith, tt)
          | inr f ↦ rw f tt
        ]
        of_last (some last) h = elim (Bool-cases (ltb s.clock (last + recover_cooldown))) [
          | inl t ↦ rw (t, t) (omega (arith, h), tt)
          | inr f ↦ rw f (All-if _ (ltb s.clock s.clock) _ _ (omega arith, tt) tt)
        ]

    after_waits-Ended :
        (earlier : List ℕ) (c : Connecting)
        → All (λ w. w ≤ 30000000000) earlier
        → Ended c
        → Ended (after_waits env earlier c)
    unfolding Ended
    after_waits-Ended earlier (s, waits, r) h k = (k.0, All-append _ earlier waits h k.1)

    -- The rest of the loop ends from wherever it is enough closer to the deadline.
    Enough : ℕ → (Identity → Connecting) → Type 0
    Enough fuel rest =
        (s : Identity)
        → ahead deadline s.clock s.last_recover < fuel * 1000000000
        → Earlier s.last_recover s.clock
        → Ended (rest s)

    waited_lem :
        (fuel b clock now : ℕ) (last o : Option ℕ)
        → clock < deadline
        → 1000000000 ≤ b
        → ahead deadline clock last < suc fuel * 1000000000
        → clock ≤ now
        → ahead deadline clock o ≤ ahead deadline clock last
        → ahead deadline (now + b) o < fuel * 1000000000
    unfolding ahead
    waited_lem fuel b clock now none none early big near on m = omega arith
    waited_lem fuel b clock now none (some l) early big near on m = omega arith
    waited_lem fuel b clock now (some k) none early big near on m = omega arith
    waited_lem fuel b clock now (some k) (some l) early big near on m = omega arith

    Earlier-later : (o : Option ℕ) (now b : ℕ) → Earlier o now → Earlier o (now + b)
    unfolding Earlier
    Earlier-later none now b h = tt
    Earlier-later (some last) now b h = omega arith

    after_recovery-Ended :
        (fuel b clock : ℕ) (last : Option ℕ) (r : Identity × Bool)
        (again later : Identity → Connecting)
        → clock < deadline
        → 1000000000 ≤ b
        → b ≤ 30000000000
        → ahead deadline clock last < suc fuel * 1000000000
        → Closer deadline clock last r
        → Enough fuel again
        → Enough fuel later
        → Ended (after_recovery env b r again later)
    unfolding Enough Closer
    after_recovery-Ended fuel b clock last (s, true) again later early big small near h k l =
        k s (omega (arith, h.0)) h.1
    after_recovery-Ended fuel b clock last (s, false) again later early big small near h k l =
        paused-Ended b s later small (
          l (at (s.clock + b) s)
            (waited_lem fuel b clock s.clock last s.last_recover early big near h.0 h.1)
            (Earlier-later s.last_recover s.clock b h.2))

    judged-Ended :
        (fuel b clock : ℕ) (v : Verdict) (s : Identity) (again later : Identity → Connecting)
        → clock < deadline
        → clock ≤ s.clock
        → 1000000000 ≤ b
        → b ≤ 30000000000
        → ahead deadline clock s.last_recover < suc fuel * 1000000000
        → Earlier s.last_recover s.clock
        → Enough fuel again
        → Enough fuel later
        → Ended (judged env v b s again later)
    unfolding Ended Enough
    judged-Ended fuel b clock accepted s again later early on big small near past k l =
        ((true, refl), tt)
    judged-Ended fuel b clock auth_rejected s again later early on big small near past k l =
        after_waits-Ended (cool_down env s)
          (after_recovery env b (recover_credentials env s) again later) (cool_down-le s past)
          (after_recovery-Ended fuel b clock s.last_recover (recover_credentials env s) again later
            early big small near (recover_credentials-Closer env deadline clock s early on) k l)
    judged-Ended fuel b clock unreachable s again later early on big small near past k l =
        paused-Ended b s later small (
          l (at (s.clock + b) s)
            (waited_lem fuel b clock s.clock s.last_recover s.last_recover early big near on
              (omega arith))
            (Earlier-later s.last_recover s.clock b past))

    next_connect_backoff-le :
        (b : ℕ)
        → 1000000000 ≤ b
        → b ≤ 30000000000
        → (1000000000 ≤ next_connect_backoff b) × (next_connect_backoff b ≤ 30000000000)
    unfolding next_connect_backoff
    next_connect_backoff-le b big small = (ground arith, ground arith)

    loop-Ended :
        (fuel b : ℕ) (s : Identity)
        → 1000000000 ≤ b
        → b ≤ 30000000000
        → ahead deadline s.clock s.last_recover < fuel * 1000000000
        → Earlier s.last_recover s.clock
        → Ended (connect_broker env fuel b s)
    unfolding connect_broker Enough Ended
    loop-Ended zero b s big small near past = absurd (omega arith)
    loop-Ended (suc fuel) b s big small near past = elim (Bool-cases (env.done_by s.clock)) [
      | inl t ↦ rw t ((false, refl), tt)
      | inr f ↦ rw f (
          judged-Ended fuel b s.clock _ (dialled env s) _ _ (early f) (omega arith) big small near
            (Earlier-later s.last_recover s.clock (env.dial_takes s.clock) past)
            (λ r near_r past_r.
              loop-Ended fuel connect_initial_backoff r (omega arith) (omega arith) near_r past_r)
            (λ r near_r past_r.
              loop-Ended fuel (next_connect_backoff b) r (next_connect_backoff-le b big small).0
                (next_connect_backoff-le b big small).1 near_r past_r))
    ]
      where
        early : env.done_by s.clock ≡ false → s.clock < deadline
        early f = elim (Bool-cases (leb deadline s.clock)) [
          | inl late ↦ absurd (cc (f, closed s.clock (leb→le deadline s.clock late)))
          | inr before ↦ leb-false→lt deadline s.clock before
        ]

    ahead-le :
        (clock : ℕ) (last : Option ℕ) → ahead deadline clock last ≤ deadline + deadline + 5000000000
    unfolding ahead
    ahead-le clock none = omega arith
    ahead-le clock (some last) = omega arith

    -- When the context is done from a deadline on and the last recovery is not in the future, the
    -- connect loop returns, connected or not, within as many rounds as there are seconds in twice
    -- the deadline, and six more, whatever the broker and the cloud answer; none of its waits, the
    -- back-offs and the cool-downs of the recoveries, is longer than thirty seconds; its first
    -- back-off is of one to thirty seconds.
    pub connect_broker-Ended :
        (fuel b : ℕ) (s : Identity)
        → 1000000000 ≤ b
        → b ≤ 30000000000
        → Earlier s.last_recover s.clock
        → deadline + deadline + 5000000000 < fuel * 1000000000
        → Ended (connect_broker env fuel b s)
    connect_broker-Ended fuel b s big small past enough =
        loop-Ended fuel b s big small (omega (arith, ahead-le s.clock s.last_recover)) past
