-- ===== src/Steps/Awaiting.antt =====
-- The wait for the agent to provision comes to an end
-- (smart-home-agent/internal/onboard/steps.go: `awaitProvisionStep`).
use smart_home_edge.Prelude.{
  ℕ, zero, suc, ◌+◌, ◌≤◌, ◌<◌, ◌≡◌, ◌⊎◌, inl, inr, refl, ap, subst, String, Bool, true, false,
  Option, none, some, arith, ltb, ltb→lt, ◌==◌, if◌then◌else◌,
}
use smart_home_edge.Steps.{
  Problem, cancelled, not_provisioned, not_provisioned_after, Answer, ok, err, Host, State,
  ClaimInfo,
}
use smart_home_edge.Steps.Actions.{Action, raise, after, on_client, ask, tried, ◌>>◌}
use smart_home_edge.Steps.Agent.{has_uid, heard, late_problem, await_until, await_act}

-- A sleep that is not cut short takes its time, one that is cut short fails with the context's
-- cancellation, and the clock does not go back while the claim is asked for.
pub record IsTimed {D : Type 0} (host : Host D) : Type 0 where
  pub slept :
      (n : ℕ) (d : D) → (host.sleep n d).0 ≡ ok tt → host.now d + n ≤ host.now (host.sleep n d).1
  pub sleep_cancelled : (n : ℕ) (d : D) (p : Problem) → (host.sleep n d).0 ≡ err p → p ≡ cancelled
  pub claim_later : (slug : String) (d : D) → host.now d ≤ host.now (host.api.claim_info slug d).1

unfoldable pub IsLate : Problem → Type 0
IsLate p = (p ≡ not_provisioned) ⊎ ((e : Problem) × (p ≡ not_provisioned_after e))

module _ {D : Type 0} (host : Host D) where
  -- How the wait ended.
  unfoldable pub Awaited : (deadline : ℕ) → Answer (Unit {0}) × State D → Type 0
  Awaited deadline (ok _, s) = (s.claim.uid == "") ≡ false
  Awaited deadline (err p, s) = (p ≡ cancelled) ⊎ (IsLate p × (deadline < host.now s.client))

  late_lem : (r : Answer ClaimInfo) → IsLate (late_problem host r)
  unfolding IsLate
  late_lem (ok info) = inl refl
  late_lem (err e) = inr (e, refl)

  uid_lem :
      (r : Answer ClaimInfo) (info : ClaimInfo)
      → has_uid host r ≡ some info
      → (info.uid == "") ≡ false
  uid_lem (err e) info h = absurd (cc h)
  uid_lem (ok i) info h = of_test (i.uid == "") refl h
    where
      of_test :
          (b : Bool)
          → (i.uid == "") ≡ b
          → (if b then none else some i) ≡ some info
          → (info.uid == "") ≡ false
      of_test true e k = absurd (cc k)
      of_test false e k = let same : i ≡ info = cc k in subst (λ j. (j.uid == "") ≡ false) same e

  -- A round that leaves enough time for the rest.
  heard_lem :
      (deadline : ℕ) (rest : Action D (Unit {0})) (r : Answer ClaimInfo) (o : Option ClaimInfo)
      (s : State D)
      → IsTimed host
      → has_uid host r ≡ o
      → (host.now s.client ≤ deadline
          → (t : State D) → host.now s.client + 3000000000 ≤ host.now t.client
          → Awaited deadline (rest t))
      → Awaited deadline (heard host deadline rest r o s)
  unfolding Awaited
  heard_lem deadline rest r (some info) s timed h next = uid_lem r info h
  heard_lem deadline rest r none s timed h next = of_test (ltb deadline (host.now s.client)) refl
    where
      woken :
          (x : Answer (Unit {0}) × D)
          → host.sleep 3000000000 s.client ≡ x
          → host.now s.client ≤ deadline
          → Awaited deadline (after (on_client s x) (λ _. rest))
      woken (ok _, d) e early =
          next early (record s { client = d })
            (subst (λ (y : Answer (Unit {0}) × D). host.now s.client + 3000000000 ≤ host.now y.1) e
              (timed.slept 3000000000 s.client (ap (λ (y : Answer (Unit {0}) × D). y.0) e)))
      woken (err p, d) e early =
          inl (
            timed.sleep_cancelled 3000000000 s.client p (ap (λ (y : Answer (Unit {0}) × D). y.0) e))

      of_test :
          (b : Bool)
          → ltb deadline (host.now s.client) ≡ b
          → Awaited deadline (
              (elim b as (λ _. Action D (Unit {0})) [
                | true ↦ raise (late_problem host r)
                | false ↦ (ask (host.sleep 3000000000) >> rest)
              ])
                s)
      of_test true e = inr (late_lem r, ltb→lt deadline (host.now s.client) e)
      of_test false e = woken (host.sleep 3000000000 s.client) refl (ground arith)

  -- The agent's answer may take any time.
  round_lem :
      (deadline : ℕ) (rest : Action D (Unit {0})) (s : State D)
      → IsTimed host
      → (host.now s.client ≤ deadline
          → (t : State D) → host.now s.client + 3000000000 ≤ host.now t.client
          → Awaited deadline (rest t))
      → Awaited deadline (
          after
            (tried (ask (host.api.claim_info s.agent_slug) s))
            (λ r. heard host deadline rest r (has_uid host r)))
  round_lem deadline rest s timed next =
      let call = host.api.claim_info s.agent_slug s.client in
      heard_lem deadline rest call.0 (has_uid host call.0) (record s { client = call.1 }) timed refl
        (λ early t later.
          next (omega (arith, early, timed.claim_later s.agent_slug s.client)) t
            (omega (arith, later, timed.claim_later s.agent_slug s.client)))

  rounds_lem :
      (rounds deadline : ℕ) (s : State D)
      → IsTimed host
      → deadline + 2 ≤ host.now s.client + suc rounds
      → Awaited deadline (await_until host (suc rounds) deadline s)
  unfolding await_until
  rounds_lem zero deadline s timed enough =
      round_lem deadline (await_until host zero deadline) s timed
        (λ early t later. absurd (omega arith))
  rounds_lem (suc rounds) deadline s timed enough =
      round_lem deadline (await_until host (suc rounds) deadline) s timed
        (λ early t later. rounds_lem rounds deadline t timed (omega arith))

  -- Where a sleep takes its time unless the context is cancelled, fails only then, and asking for the
  -- claim does not turn the clock back, the wait ends by itself: with an agent that has told its
  -- uid, with the context cancelled, or with the error that the agent did not provision, and then
  -- only after the deadline; the rounds that the model allows are never used up.
  pub await_act-Awaited :
      (s : State D)
      → IsTimed host
      → Awaited (host.now s.client + s.timeouts.wait_provision) (await_act host s)
  unfolding await_act
  await_act-Awaited s timed =
      let deadline = host.now s.client + s.timeouts.wait_provision in
      let two_more : suc (suc s.timeouts.wait_provision) ≡ s.timeouts.wait_provision + 2 =
        omega arith in
      subst (λ n. Awaited deadline (await_until host n deadline s)) two_more
        (rounds_lem (suc s.timeouts.wait_provision) deadline s timed (omega arith))
