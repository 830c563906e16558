-- ===== src/Gateway/Waiting.antt =====
-- A gateway that onboarding waits for through its client
-- (smart-home-agent/internal/onboard/steps.go: `sleep`; client.go: `ClaimInfo`).
use Prim.Native.String.{◌++◌}
use smart_home_edge.Prelude.{
  ℕ, ◌+◌, ◌≤◌, ◌≡◌, refl, sym, subst, arith, String, Bool, true, false, Option, none, some, ◌||◌,
  ◌&&◌, not, ◌==◌, nat_eq, if◌then◌else◌,
}
use smart_home_edge.Steps
use smart_home_edge.Steps.{Problem, Answer, DeviceApi, Host, ClaimInfo}
use smart_home_edge.Steps.Awaiting.{IsTimed}
use smart_home_edge.Gateway.{
  get, unexpected, Wire, Fault, Result, ok, err, Remote, Call, pure, raise, next, send, accepted,
  noted,
}
use smart_home_edge.Gateway.Claim.{
  claim_info, addon_logs, claim_code_from_notification, completed, told,
}

-- The clock of the client has not gone back.
abbrev Later : {A : Type 0} → Wire → Result A × Wire → Type 0
Later w r = w.clock ≤ r.1.clock

Later-next :
    {A B : Type 0} (w : Wire) (r : Result A × Wire) (f : A → Call B)
    → Later w r
    → ((a : A) (v : Wire) → w.clock ≤ v.clock → Later w (f a v))
    → Later w (next r f)
Later-next w (ok a, v) f h k = k a v h
Later-next w (err e, v) f h k = h

Later-branch :
    {A : Type 0} (w v : Wire) (t : Bool) (f g : Call A)
    → Later w (f v)
    → Later w (g v)
    → Later w ((if t then f else g) v)
Later-branch w v true f g h k = h
Later-branch w v false f g h k = k

module _ (remote : Remote) where
  -- A sleep is cut short where the context is done before its end.
  unfoldable pub sleep : ℕ → Wire → Answer (Unit {0}) × Wire
  sleep n w =
      if remote.done_by w.clock || remote.done_by (w.clock + n)
      then (Steps.err Steps.cancelled, w)
      else (Steps.ok tt, record w { clock = w.clock + n })

  accepted-Later :
      (w v : Wire) (what : String) (o : Option (ℕ × String))
      → w.clock ≤ v.clock
      → Later w (accepted remote what o v)
  accepted-Later w v what none h = h
  accepted-Later w v what (some (status, body)) h =
      Later-branch w v (nat_eq status 200) (pure body) (raise (unexpected what status)) h h

  addon_logs-Later : (w : Wire) (slug : String) → Later w (addon_logs remote slug w)
  unfolding addon_logs send
  addon_logs-Later w slug =
      let path = get ("/api/hassio/addons/" ++ (slug ++ "/logs")) in
      accepted-Later w (noted remote path w) "addon logs" (remote.reply w.sent path) (omega arith)

  notified-Later :
      (w v : Wire) → w.clock ≤ v.clock → Later w (claim_code_from_notification remote v)
  unfolding claim_code_from_notification send
  notified-Later w v h = omega (arith, h)

  -- Asking for the claim takes its time.
  claim_info-Later : (slug : String) (w : Wire) → Later w (claim_info remote slug w)
  unfolding claim_info
  claim_info-Later slug w =
      Later-next w (addon_logs remote slug w) (λ logs. completed remote (told remote logs))
        (addon_logs-Later w slug)
        (λ logs v h.
          let info = told remote logs in
          let filled = λ (code : String). pure (record info { claim_code = code }) in
          Later-branch w v ((info.claim_code == "") && not info.claimed)
            (λ u. next (claim_code_from_notification remote u) filled) (pure info)
            (Later-next w (claim_code_from_notification remote v) filled (notified-Later w v h)
              (λ code u k. k))
            h)

  -- The client's answer, its fault as a text.
  abbrev pub answer_of : {A : Type 0} → (Fault → String) → Result A × Wire → Answer A × Wire
  answer_of text (ok a, w) = (Steps.ok a, w)
  answer_of text (err e, w) = (Steps.err (Steps.device (text e)), w)

  -- A host whose claim is asked for, and whose waits are made, the way the client does.
  unfoldable pub claimed_through : (Fault → String) → Host Wire → Host Wire
  unfolding sleep
  claimed_through text host = record host {
    api = record host.api { claim_info = λ slug w. answer_of text (claim_info remote slug w) };
    sleep = sleep;
    now = λ w. w.clock;
  }

  answered-clock :
      {A : Type 0} (text : Fault → String) (r : Result A × Wire)
      → (answer_of text r).1.clock ≡ r.1.clock
  answered-clock text (ok a, w) = refl
  answered-clock text (err e, w) = refl

  slept_lem :
      (n : ℕ) (w : Wire) (t : Bool) (r : Answer (Unit {0}) × Wire)
      → r ≡ (
          if t
          then (Steps.err Steps.cancelled, w)
          else (Steps.ok tt, record w { clock = w.clock + n }))
      → (r.0 ≡ Steps.ok tt → w.clock + n ≤ r.1.clock)
        × ((p : Problem) → r.0 ≡ Steps.err p → p ≡ Steps.cancelled)
  slept_lem n w true r e =
      subst
        (λ (x : Answer (Unit {0}) × Wire).
          (x.0 ≡ Steps.ok tt → w.clock + n ≤ x.1.clock)
          × ((p : Problem) → x.0 ≡ Steps.err p → p ≡ Steps.cancelled))
        (sym e) ((λ h. absurd (cc h)), (λ p h. cc h))
  slept_lem n w false r e =
      subst
        (λ (x : Answer (Unit {0}) × Wire).
          (x.0 ≡ Steps.ok tt → w.clock + n ≤ x.1.clock)
          × ((p : Problem) → x.0 ≡ Steps.err p → p ≡ Steps.cancelled))
        (sym e) ((λ h. omega arith), (λ p h. absurd (cc h)))

  pub claimed_through-IsTimed :
      (text : Fault → String) (host : Host Wire) → IsTimed (claimed_through text host)
  unfolding claimed_through sleep
  claimed_through-IsTimed text host = record {
    slept = λ n w. (slept_lem n w _ _ refl).0;
    sleep_cancelled = λ n w. (slept_lem n w _ _ refl).1;
    claim_later = λ slug w.
        omega (arith, answered-clock text (claim_info remote slug w), claim_info-Later slug w);
  }
