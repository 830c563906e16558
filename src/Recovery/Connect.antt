-- ===== src/Recovery/Connect.antt =====
-- The connect loop (smart-home-agent/internal/agent/agent.go: `connectBroker`), and the calls that
-- work on the gateway's credentials, in any order.
use smart_home_edge.Prelude.{
  ℕ, zero, suc, ◌+◌, ◌*◌, Bool, true, false, Option, none, some, List, [], ◌∷◌, ◌-◌, ◌++◌, ◌||◌,
  ltb, if◌then◌else◌,
}
use smart_home_edge.Recovery.{
  Identity, Surroundings, Verdict, accepted, auth_rejected, unreachable, cooled,
  recover_credentials, reissue_now, reprovision, surface_claim_status,
}

abbrev pub connect_initial_backoff : ℕ
connect_initial_backoff = 1000000000

abbrev pub connect_max_backoff : ℕ
connect_max_backoff = 30000000000

unfoldable pub next_connect_backoff : ℕ → ℕ
next_connect_backoff b =
    if ltb b connect_max_backoff
    then (if ltb connect_max_backoff (b * 2) then connect_max_backoff else b * 2)
    else b

-- The waits in order, the cool-downs of recoveries included and also where the context cuts one
-- short, and whether the loop ended connected; `none` when the fuel is used up.
abbrev pub Connecting : Type 0
Connecting = Identity × List ℕ × Option Bool

abbrev pub slept : ℕ → Connecting → Connecting
slept b (s, waits, r) = (s, b ∷ waits, r)

abbrev pub at : ℕ → Identity → Identity
at now s = record s { clock = now }

pub data Call : Type 0 where
  surfacing reissuing : (claimed : Bool) → Call
  reprovisioning : Call
  connecting : (fuel backoff : ℕ) → Call
  idling : (time : ℕ) → Call

module _ (env : Surroundings) where
  abbrev pub paused : ℕ → Identity → (Identity → Connecting) → Connecting
  paused b s rest = slept b (
      if env.done_by s.clock || env.done_by (s.clock + b)
      then (s, [], some false)
      else rest (at (s.clock + b) s))

  -- The wait before a recovery, if there is one.
  unfoldable pub cool_down : Identity → List ℕ
  cool_down s =
      let now = cooled env s.clock s.last_recover in
      if ltb s.clock now then (now - s.clock) ∷ [] else []

  abbrev pub after_waits : List ℕ → Connecting → Connecting
  after_waits earlier (s, waits, r) = (s, earlier ++ waits, r)

  -- A recovery that succeeds is followed by an attempt at once, any other way by a pause.
  abbrev pub after_recovery :
      ℕ → Identity × Bool → (again later : Identity → Connecting) → Connecting
  after_recovery b (s, true) again later = again s
  after_recovery b (s, false) again later = paused b s later

  abbrev pub judged : Verdict → ℕ → Identity → (again later : Identity → Connecting) → Connecting
  judged accepted b s again later = (s, [], some true)
  judged auth_rejected b s again later =
      after_waits (cool_down s) (after_recovery b (recover_credentials env s) again later)
  judged unreachable b s again later = paused b s later

  abbrev pub dialled : Identity → Identity
  dialled s = at (s.clock + env.dial_takes s.clock) s

  unfoldable pub connect_broker : ℕ → ℕ → Identity → Connecting
  unfolding recover_credentials next_connect_backoff cool_down
  connect_broker zero b s = (s, [], none)
  connect_broker (suc fuel) b s =
      if env.done_by s.clock
      then (s, [], some false)
      else judged (env.broker s.clock s.creds.mqtt_username s.creds.mqtt_password) b (dialled s)
          (λ next. connect_broker fuel connect_initial_backoff next)
          (λ next. connect_broker fuel (next_connect_backoff b) next)

  unfoldable pub perform : Identity → Call → Identity
  unfolding surface_claim_status reissue_now reprovision connect_broker
  perform s (surfacing claimed) = surface_claim_status env claimed s
  perform s (reissuing claimed) = (reissue_now env claimed s).0
  perform s reprovisioning = (reprovision env s).0
  perform s (connecting fuel backoff) = (connect_broker fuel backoff s).0
  perform s (idling time) = at (s.clock + time) s

  unfoldable pub perform_all : Identity → List Call → Identity
  unfolding perform
  perform_all s [] = s
  perform_all s (c ∷ cs) = perform_all (perform s c) cs

  -- What the clock does not enter, and a recovery keeps, the connect loop keeps.
  module _ {ℓ} (P : Identity → Type ℓ) (clock : (now : ℕ) (s : Identity) → P s → P (at now s))
      (recovery : (s : Identity) → P s → P (recover_credentials env s).0) where
    paused_keeps :
        (b : ℕ) (s : Identity) (rest : Identity → Connecting)
        → P s
        → ((next : Identity) → P next → P (rest next).0)
        → P (paused b s rest).0
    paused_keeps b s rest h k =
        stopped_or (env.done_by s.clock || env.done_by (s.clock + b)) h
          (k (at (s.clock + b) s) (clock (s.clock + b) s h))
      where
        stopped_or :
            (done : Bool)
            → P s
            → P (rest (at (s.clock + b) s)).0
            → P (if done then (s, [], some false) else rest (at (s.clock + b) s)).0
        stopped_or true h k = h
        stopped_or false h k = k

    after_recovery_keeps :
        (b : ℕ) (r : Identity × Bool) (again later : Identity → Connecting)
        → P r.0
        → ((next : Identity) → P next → P (again next).0)
        → ((next : Identity) → P next → P (later next).0)
        → P (after_recovery b r again later).0
    after_recovery_keeps b (s, true) again later h k l = k s h
    after_recovery_keeps b (s, false) again later h k l = paused_keeps b s later h l

    judged_keeps :
        (v : Verdict) (b : ℕ) (s : Identity) (again later : Identity → Connecting)
        → P s
        → ((next : Identity) → P next → P (again next).0)
        → ((next : Identity) → P next → P (later next).0)
        → P (judged v b s again later).0
    judged_keeps accepted b s again later h k l = h
    judged_keeps auth_rejected b s again later h k l =
        after_recovery_keeps b (recover_credentials env s) again later (recovery s h) k l
    judged_keeps unreachable b s again later h k l = paused_keeps b s later h l

    pub connect_broker_keeps : (fuel b : ℕ) (s : Identity) → P s → P (connect_broker fuel b s).0
    unfolding connect_broker
    connect_broker_keeps zero b s h = h
    connect_broker_keeps (suc fuel) b s h = if_keeps (env.done_by s.clock) _ h (
        judged_keeps _ b (dialled s) _ _ (clock _ s h)
          (λ next. connect_broker_keeps fuel connect_initial_backoff next)
          (λ next. connect_broker_keeps fuel (next_connect_backoff b) next))
      where
        if_keeps :
            (done : Bool) (next : Connecting)
            → P s
            → P next.0
            → P (if done then (s, [], some false) else next).0
        if_keeps true next h k = h
        if_keeps false next h k = k
