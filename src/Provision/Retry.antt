-- ===== src/Provision/Retry.antt =====
-- The retry loop of first boot, and that it goes on until the cloud accepts the unit
-- (smart-home-agent/internal/provision/provision.go: `provisionWithRetry`, `EnsureProvisioned`).
use smart_home_edge.Prelude.{
  ◌≡◌, ap, ◌∙◌, ◌≤◌, ◌<◌, ◌*◌, ℕ, zero, suc, Bool, true, false, Option, none, some, List, [], ◌∷◌,
  arith, All, ltb, if◌then◌else◌,
}
use smart_home_edge.Provision.{
  Credentials, Metadata, Settings, Error, Result, ok, err, Cloud, Disk, is_usable, recover,
}
use smart_home_edge.Provision.Secrets.{Outcome, recover-Outcome}

-- The backoff of the retry loop, in nanoseconds.
abbrev pub provision_initial_backoff : ℕ
provision_initial_backoff = 2000000000

abbrev pub provision_max_backoff : ℕ
provision_max_backoff = 300000000000

unfoldable pub next_backoff : ℕ → ℕ
next_backoff b =
    if ltb b provision_max_backoff
    then (if ltb provision_max_backoff (b * 2) then provision_max_backoff else b * 2)
    else b

pub data Provisioned : Type 0 where
  provisioned : Credentials → Provisioned
  cancelled : Provisioned

-- The attempts to come: the cloud that each meets, and whether the context is done after it failed,
-- or before its wait is over.
pub record Future : Type 0 where
  pub cloud : ℕ → Cloud
  pub gives_up : ℕ → Bool

abbrev pub later : Future → Future
later f = record { cloud = λ k. f.cloud (suc k); gives_up = λ k. f.gives_up (suc k) }

-- The file, the waits in order, and what is returned; `none` when the fuel is used up.
abbrev pub Attempts : Type 0
Attempts = Disk × List ℕ × Option Provisioned

abbrev pub waited : Bool → ℕ → Disk → Attempts → Attempts
waited true backoff disk rest = (disk, [], some cancelled)
waited false backoff disk (after, waits, r) = (after, backoff ∷ waits, r)

abbrev pub attempted : Bool → ℕ → Disk × Result Credentials → (Disk → Attempts) → Attempts
attempted gives_up backoff (disk, ok c) rest = (disk, [], some (provisioned c))
attempted gives_up backoff (disk, err e) rest = waited gives_up backoff disk (rest disk)

unfoldable pub provision_with_retry : ℕ → Settings → Metadata → Future → ℕ → Disk → Attempts
unfolding recover next_backoff
provision_with_retry zero settings meta f backoff disk = (disk, [], none)
provision_with_retry (suc fuel) settings meta f backoff disk =
    attempted (f.gives_up 0) backoff (recover settings meta (f.cloud 0) disk)
      (λ d. provision_with_retry fuel settings meta (later f) (next_backoff backoff) d)

abbrev usable_or : Disk → Attempts → Attempts
usable_or none retried = retried
usable_or (some c) retried = if is_usable c then (some c, [], some (provisioned c)) else retried

unfoldable pub ensure_provisioned : ℕ → Settings → Metadata → Future → Disk → Attempts
unfolding provision_with_retry is_usable
ensure_provisioned fuel settings meta f disk =
    usable_or disk (provision_with_retry fuel settings meta f provision_initial_backoff disk)

next_backoff-le : (b : ℕ) → b ≤ provision_max_backoff → next_backoff b ≤ provision_max_backoff
unfolding next_backoff
next_backoff-le b h = ground arith

Bounded : Attempts → Type 0
Bounded r = All (λ b. b ≤ provision_max_backoff) r.1

attempted-Bounded :
    (gives_up : Bool) (b : ℕ) (r : Disk × Result Credentials) (rest : Disk → Attempts)
    → b ≤ provision_max_backoff
    → ((d : Disk) → Bounded (rest d))
    → Bounded (attempted gives_up b r rest)
unfolding Bounded
attempted-Bounded gives_up b (disk, ok c) rest h k = tt
attempted-Bounded true b (disk, err e) rest h k = tt
attempted-Bounded false b (disk, err e) rest h k = (h, k disk)

-- Whatever happens, no wait between two attempts is longer than five minutes, when the first is not.
pub provision_with_retry_bounded :
    (fuel : ℕ) (settings : Settings) (meta : Metadata) (f : Future) (b : ℕ) (disk : Disk)
    → b ≤ 300000000000
    → All (λ wait. wait ≤ 300000000000) (provision_with_retry fuel settings meta f b disk).1
unfolding provision_with_retry Bounded
provision_with_retry_bounded zero settings meta f b disk h = tt
provision_with_retry_bounded (suc fuel) settings meta f b disk h =
    attempted-Bounded (f.gives_up 0) b (recover settings meta (f.cloud 0) disk) _ h (λ d.
      provision_with_retry_bounded fuel settings meta (later f) (next_backoff b) d
        (next_backoff-le b h))

-- The attempt fails and the context is not done.
unfoldable pub Fails : Settings → Metadata → Future → Disk → ℕ → Type 0
Fails settings meta f disk k =
    (e : Error) × ((recover settings meta (f.cloud k) disk).1 ≡ err e) × (f.gives_up k ≡ false)

failed_lem :
    (b : ℕ) (disk : Disk) (r : Disk × Result Credentials) (e : Error) (rest : Disk → Attempts)
    → Outcome disk r
    → r.1 ≡ err e
    → attempted false b r rest ≡ waited false b disk (rest disk)
unfolding Outcome
failed_lem b disk (after, ok c) e rest o h = absurd (cc h)
failed_lem b disk (after, err e') e rest o h = ap (λ d. waited false b d (rest d)) o

found_lem :
    (gives_up : Bool) (b : ℕ) (disk : Disk) (r : Disk × Result Credentials) (c : Credentials)
    (rest : Disk → Attempts)
    → Outcome disk r
    → r.1 ≡ ok c
    → attempted gives_up b r rest ≡ (some c, [], some (provisioned c))
unfolding Outcome
found_lem gives_up b disk (after, ok c') c rest o h =
    let same : c' ≡ c = cc h in
    ap (λ d. (d, [], some (provisioned c'))) o.0 ∙ ap (λ x. (some x, [], some (provisioned x))) same
found_lem gives_up b disk (after, err e) c rest o h = absurd (cc h)

-- When the first n attempts fail, the context stays open, and attempt n (from 0) is accepted, the
-- loop returns those credentials after n + 1 rounds, and they are in the file.
pub provision_with_retry_returns :
    (n : ℕ) (settings : Settings) (meta : Metadata) (f : Future) (b : ℕ) (disk : Disk)
    (c : Credentials)
    → ((k : ℕ) → k < n → Fails settings meta f disk k)
    → (recover settings meta (f.cloud n) disk).1 ≡ ok c
    → ((provision_with_retry (suc n) settings meta f b disk).0 ≡ some c)
      × ((provision_with_retry (suc n) settings meta f b disk).2 ≡ some (provisioned c))
unfolding provision_with_retry Fails
provision_with_retry_returns zero settings meta f b disk c fails accepted =
    let e =
      found_lem (f.gives_up 0) b disk (recover settings meta (f.cloud 0) disk) c _
        (recover-Outcome settings meta (f.cloud 0) disk) accepted in
    (ap (λ (r : Attempts). r.0) e, ap (λ (r : Attempts). r.2) e)
provision_with_retry_returns (suc n) settings meta f b disk c fails accepted =
    let (e, failed, going) = fails 0 (omega arith) in
    let next =
      provision_with_retry_returns n settings meta (later f) (next_backoff b) disk c
        (λ k small. fails (suc k) (omega arith)) accepted in
    let step =
      failed_lem b disk (recover settings meta (f.cloud 0) disk) e
        (λ d. provision_with_retry (suc n) settings meta (later f) (next_backoff b) d)
        (recover-Outcome settings meta (f.cloud 0) disk) failed in
    (
      ap
            (λ g.
              (attempted g b (recover settings meta (f.cloud 0) disk)
                (λ d. provision_with_retry (suc n) settings meta (later f) (next_backoff b) d)).0)
            going
          ∙ (ap (λ (r : Attempts). r.0) step ∙ next.0),
      ap
            (λ g.
              (attempted g b (recover settings meta (f.cloud 0) disk)
                (λ d. provision_with_retry (suc n) settings meta (later f) (next_backoff b) d)).2)
            going
          ∙ (ap (λ (r : Attempts). r.2) step ∙ next.1),
    )
