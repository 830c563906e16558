-- ===== src/Recovery/Cooldown.antt =====
-- Recoveries are rare (smart-home-agent/internal/agent/agent.go: `recoverCredentials`).
use smart_home_edge.Prelude.{
  ◌≡◌, refl, sym, subst, ◌≤◌, ◌+◌, ℕ, Option, none, some, List, [], ◌∷◌, arith,
}
use smart_home_edge.Provision.{Credentials, Disk, Result, ok, err}
use smart_home_edge.Recovery.{Identity, Surroundings, taken_over, trigger_reconnect, cooled}
use smart_home_edge.Recovery.Connect.{Call, perform_all}
use smart_home_edge.Recovery.Keeps.{Stored, perform_all_keeps}

-- Times, the newest first, of which no two are closer than the cool-down of thirty seconds.
unfoldable pub Spaced : List ℕ → Type 0
Spaced [] = Unit
Spaced (now ∷ []) = Unit
Spaced (now ∷ last ∷ earlier) = (last + 30000000000 ≤ now) × Spaced (last ∷ earlier)

-- The newest of them is the one that the agent remembers.
unfoldable pub Remembered : Option ℕ → List ℕ → Type 0
Remembered none times = times ≡ []
Remembered (some last) times = (earlier : List ℕ) × (times ≡ last ∷ earlier)

unfoldable pub Paced : Identity → Type 0
Paced s = Remembered s.last_recover s.recoveries × Spaced s.recoveries

cooled-Spaced :
    (env : Surroundings) (now : ℕ) (o : Option ℕ) (times : List ℕ)
    → Remembered o times
    → Spaced times
    → Spaced (cooled env now o ∷ times)
unfolding Remembered Spaced
cooled-Spaced env now none times h k = subst (λ ts. Spaced (now ∷ ts)) (sym h) tt
cooled-Spaced env now (some last) times (earlier, e) k =
    subst (λ ts. Spaced (cooled env now (some last) ∷ ts)) (sym e) (ground arith, subst Spaced e k)

taken_over-Paced :
    (takes : ℕ) (s : Identity) (r : Disk × Result Credentials)
    → Stored s.disk r
    → Paced s
    → Paced (taken_over takes s r)
unfolding Paced
taken_over-Paced takes s (after, ok c) e h = h
taken_over-Paced takes s (after, err e') e h = h

-- Under any sequence of connect loops, recoveries, reissues and panel actions, whatever the cloud
-- and the broker answer, no two recoveries are tried within thirty seconds of each other, when the
-- agent starts out with none.
pub perform_all-Spaced :
    (env : Surroundings) (s : Identity) (cs : List Call)
    → s.last_recover ≡ none
    → s.recoveries ≡ []
    → Spaced (perform_all env s cs).recoveries
unfolding Paced trigger_reconnect Remembered Spaced
perform_all-Spaced env s cs fresh untried =
    (perform_all_keeps env Paced (λ now t k. k) (λ n t k. k) (λ t k. k)
      (λ t k. ((t.recoveries, refl), cooled-Spaced env t.clock t.last_recover t.recoveries k.0 k.1))
      taken_over-Paced s cs
      (subst (λ o. Remembered o s.recoveries) (sym fresh) untried, subst Spaced (sym untried) tt)).1
