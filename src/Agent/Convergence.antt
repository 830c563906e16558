-- ===== src/Agent/Convergence.antt =====
-- A device's desired state is applied once, and a command expires after its time to live
-- (smart-home-agent/internal/agent/agent.go: `handleDesiredShadow`, `commandExpired`).
use smart_home_edge.Prelude.{
  ◌≡◌, refl, ◌∙◌, ap, inl, inr, Bool, true, false, Option, none, some, ℕ, zero, suc, subst, ◌<◌,
  ◌≤◌, ◌≤ℤ◌, negsuc, if◌then◌else◌, ◌*◌, ◌%◌, ◌^◌, ℤ, pos, ◌+ℤ◌, ltb_ℤ, leb_ℤ, ltb, seconds, arith,
  ◌==◌, eq_refl, Bool-cases,
}
use smart_home_edge.Contract.{CommandPayload, DesiredShadowPayload}
use smart_home_edge.EntityMap.{entity_for_device}
use smart_home_edge.Translate.{translate_desired}
use smart_home_edge.Versions.{get}
use smart_home_edge.Versions.Monotone.{raised, get-set}
use smart_home_edge.Agent.{Agent, World}
use smart_home_edge.Agent.Uplink.{report_device_state}
use smart_home_edge.Agent.Command.{command_expired, issued_at, past}
use smart_home_edge.Agent.Shadow.{
  apply_calls, apply_shadow, handle_desired_shadow, converged, finish, record_version,
}
use smart_home_edge.Agent.Invariant.{Quiet-report_device_state}

seconds_lem : (n : ℕ) → n ≤ 9223372036 → seconds (pos n) ≡ pos (n * 1000000000)
seconds_lem n h =
    let same : ((n % 2 ^ 64) * 1000000000) % 2 ^ 64 ≡ n * 1000000000 = omega arith in
    let small : ltb (n * 1000000000) (2 ^ 63) ≡ true = ground arith in rw (same, small) refl

converged-raised :
    (o : Option ℤ) (v v' : ℤ) → leb_ℤ v' v ≡ true → converged (some (raised o v)) v' ≡ true
converged-raised none v v' h = h
converged-raised (some x) v v' h = ground arith

converged_below :
    (o : Option ℤ) (v v' : ℤ) → converged o v ≡ true → leb_ℤ v' v ≡ true → converged o v' ≡ true
converged_below (some x) v v' h k = ground arith
converged_below none v v' h k = absurd (cc h)

-- The issue can be read, there is a time to live, and that has passed.
unfoldable pub Overdue : ℤ → ℤ → Option ℤ → Type 0
Overdue now ttl o =
    (issued : ℤ) × (n : ℕ) × (o ≡ some issued)
    × (ttl ≡ pos n)
    × (0 < n)
    × (ltb_ℤ (issued +ℤ pos (n * 1000000000)) now ≡ true)

expired_lem :
    (now ttl : ℤ) (o : Option ℤ)
    → ttl ≤ℤ pos 9223372036
    → (if leb_ℤ ttl (pos 0) then false else past now ttl o) ≡ true
    → Overdue now ttl o
unfolding Overdue
expired_lem now (negsuc n) o h e =
    let none_left : leb_ℤ (negsuc n) (pos 0) ≡ true = ground arith in absurd (cc (none_left, e))
expired_lem now (pos zero) o h e = absurd (cc e)
expired_lem now (pos (suc n)) none h e =
    let live : leb_ℤ (pos (suc n)) (pos 0) ≡ false = ground arith in absurd (cc (live, e))
expired_lem now (pos (suc n)) (some issued) h e =
    let live : leb_ℤ (pos (suc n)) (pos 0) ≡ false = ground arith in
    let late : ltb_ℤ (issued +ℤ seconds (pos (suc n))) now ≡ true =
      subst (λ b. (if b then false else ltb_ℤ (issued +ℤ seconds (pos (suc n))) now) ≡ true) live
        e in
    (
      issued,
      suc n,
      refl,
      refl,
      omega arith,
      subst (λ t. ltb_ℤ (issued +ℤ t) now ≡ true) (seconds_lem (suc n) (omega (arith, h))) late,
    )

overdue_lem :
    (now ttl : ℤ) (o : Option ℤ)
    → ttl ≤ℤ pos 9223372036
    → Overdue now ttl o
    → (if leb_ℤ ttl (pos 0) then false else past now ttl o) ≡ true
unfolding Overdue
overdue_lem now ttl o h (issued, n, told, same, positive, late) =
    let small : pos n ≤ℤ pos 9223372036 = subst (λ t. t ≤ℤ pos 9223372036) same h in
    let live : leb_ℤ (pos n) (pos 0) ≡ false = ground arith in
    rw (told, same, live, seconds_lem n (omega (arith, small))) late

module _ (w : World) where
  -- For any time to live of at most 9223372036 seconds, a command is expired exactly when its time of
  -- issue can be read, its time to live is positive, and the clock is past the issue by more than
  -- the time to live; in every other case it is not.
  pub command_expired_iff :
      (a : Agent) (cmd : CommandPayload)
      → cmd.ttl_sec ≤ℤ pos 9223372036
      → (command_expired w a cmd ≡ true → Overdue (w.now a.trace) cmd.ttl_sec (issued_at w cmd.ts))
        × (Overdue (w.now a.trace) cmd.ttl_sec (issued_at w cmd.ts)
            → command_expired w a cmd ≡ true)
  unfolding command_expired
  command_expired_iff a cmd h = (
    expired_lem (w.now a.trace) cmd.ttl_sec (issued_at w cmd.ts) h,
    overdue_lem (w.now a.trace) cmd.ttl_sec (issued_at w cmd.ts) h,
  )

  version-finish :
      (r : Agent × Bool) (s : DesiredShadowPayload) (v' : ℤ)
      → r.1 ≡ true
      → leb_ℤ v' s.desired_version ≡ true
      → converged (get (finish w s r).versions s.device_uid) v' ≡ true
  unfolding record_version
  version-finish (a, false) s v' ok h = absurd (cc ok)
  version-finish (a, true) s v' ok h =
      rw
        ((Quiet-report_device_state w (record_version w a s.device_uid s.desired_version)
          s.device_uid).versions)
        (rw get-set
          (rw eq_refl (converged-raised (get a.versions s.device_uid) s.desired_version v' h)))

  settled :
      (b : Agent) (s : DesiredShadowPayload)
      → (s.device_uid == "") ≡ false
      → converged (get b.versions s.device_uid) s.desired_version ≡ true
      → apply_shadow w b s ≡ report_device_state w b s.device_uid
  unfolding apply_shadow
  settled b s f d = rw (f, d) refl

  module _ (a : Agent) (s : DesiredShadowPayload) (named : (s.device_uid == "") ≡ false)
      (mapped : (entity_for_device a.emap s.device_uid == "") ≡ false)
      (applied : (apply_calls w a
          (translate_desired (entity_for_device a.emap s.device_uid) s.state)).1
        ≡ true) where
    caught_up :
        (v' : ℤ)
        → leb_ℤ v' s.desired_version ≡ true
        → converged (get (apply_shadow w a s).versions s.device_uid) v' ≡ true
    unfolding apply_shadow
    caught_up v' h = elim (Bool-cases (converged (get a.versions s.device_uid) s.desired_version)) [
      | inl current ↦
          rw (named, current, (Quiet-report_device_state w a s.device_uid).versions)
            (converged_below (get a.versions s.device_uid) s.desired_version v' current h)
      | inr behind ↦ rw (named, behind, mapped) (version-finish _ s v' applied h)
    ]

    -- Once all service calls of a named, mapped device's desired state have succeeded, a desired
    -- state for that device with that version or an older one calls no service any more: it only
    -- reports the device's state.
    pub desired_shadow_once :
        (again : DesiredShadowPayload)
        → again.device_uid ≡ s.device_uid
        → leb_ℤ again.desired_version s.desired_version ≡ true
        → let b = handle_desired_shadow w a (some s) in
          handle_desired_shadow w b (some again) ≡ report_device_state w b s.device_uid
    unfolding handle_desired_shadow
    desired_shadow_once again same h =
        let unnamed : (again.device_uid == "") ≡ false = rw same named in
        let done : converged (get (apply_shadow w a s).versions again.device_uid)
              again.desired_version
            ≡ true =
          rw same (caught_up again.desired_version h) in
        settled (apply_shadow w a s) again unnamed done
        ∙ ap (report_device_state w (apply_shadow w a s)) same
