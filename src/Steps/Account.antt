-- ===== src/Steps/Account.antt =====
-- The steps before any add-on (smart-home-agent/internal/onboard/steps.go: `connectStep`,
-- `ownerAndTokenStep`, `addonRepositoryStep`).
use smart_home_edge.Prelude.{String, Bool, true, false, not, List, [], ◌∷◌, ◌==◌, if◌then◌else◌}
use smart_home_edge.Onboard.{Step}
use smart_home_edge.Steps.{
  OnboardingStatus, OwnerConfig, Problem, no_token, no_owner, repository_missing, Answer, ok, err,
  Host, State,
}
use smart_home_edge.Steps.Actions.{
  Action, pure, gets, modify, ask, attempt, raise_if, ◌>>=◌, ◌>>◌, poll, step,
}
use smart_home_edge.Steps.Repositories.{required_repositories, repo_present, all_present}

abbrev pub is_ok : {A : Type 0} → Answer A → Bool
is_ok (ok a) = true
is_ok (err e) = false

abbrev pub or_short_lived : String → Answer String → String
or_short_lived access_token (ok token) = token
or_short_lived access_token (err e) = access_token

module _ {D : Type 0} (host : Host D) where
  -- An error of the probe means that Core is not up.
  unfoldable pub connect_check : Action D Bool
  connect_check = do up ← attempt (ask (host.api.wait_for_core 2000000000)); pure (is_ok up)

  unfoldable pub connect_act : Action D (Unit {0})
  connect_act s = ask (host.api.wait_for_core s.timeouts.wait_core) s

  unfoldable pub connect_verify : Action D (Unit {0})
  connect_verify = ask (host.api.wait_for_core 10000000000)

  abbrev pub authorized : OwnerConfig → OnboardingStatus → Action D String
  authorized owner status =
      if status.user_done
      then ask (host.api.login owner.username owner.password)
      else ask (host.api.create_owner owner)

  unfoldable pub owner_check : Action D Bool
  owner_check = gets (λ s. not (host.api.token s.client == ""))

  -- Without a long-lived token the run goes on with the short-lived one, and the last two calls may
  -- fail.
  unfoldable pub owner_act : Action D (Unit {0})
  owner_act = do
    status ← ask host.api.onboarding_status
    owner ← gets (λ s. s.owner)
    auth_code ← authorized owner status
    access_token ← ask (host.api.exchange_code auth_code)
    modify (λ s. record s { access_token = access_token })
    long_lived ← attempt (ask (host.api.create_long_lived_token access_token "smart-onboard"))
    modify (λ s. record s {
      client = host.api.set_token (or_short_lived access_token long_lived) s.client;
    })
    attempt (ask host.api.finish_onboarding)
    core_config ← gets (λ s. s.core_config)
    attempt (ask (host.api.update_core_config core_config))
    pure tt

  unfoldable pub owner_verify : Action D (Unit {0})
  owner_verify = do
    token ← gets (λ s. host.api.token s.client)
    raise_if (token == "") no_token
    status ← ask host.api.onboarding_status
    raise_if (not status.user_done) no_owner

  abbrev pub have_all : Action D Bool
  have_all = do
    have ← ask host.api.store_repositories
    manifest ← gets (λ s. s.manifest)
    pure (all_present host have (required_repositories manifest))

  unfoldable pub repositories_check : Action D Bool
  unfolding all_present required_repositories
  repositories_check = have_all

  abbrev pub add_missing : List String → List String → Action D (Unit {0})
  add_missing have [] = pure tt
  add_missing have (want ∷ rest) =
      if repo_present host have want
      then add_missing have rest
      else (ask (host.api.add_store_repository want) >> add_missing have rest)

  unfoldable pub repositories_act : Action D (Unit {0})
  unfolding required_repositories repo_present
  repositories_act = do
    have ← ask host.api.store_repositories
    manifest ← gets (λ s. s.manifest)
    add_missing have (required_repositories manifest)

  unfoldable pub repositories_verify : Action D (Unit {0})
  unfolding all_present required_repositories poll
  repositories_verify = poll host 10 have_all repository_missing

  unfoldable pub connect_step : Step (State D) Problem
  unfolding connect_check connect_act connect_verify
  connect_step = step "connect" connect_check connect_act connect_verify

  unfoldable pub owner_and_token_step : Step (State D) Problem
  unfolding owner_check owner_act owner_verify
  owner_and_token_step = step "owner-and-token" owner_check owner_act owner_verify

  unfoldable pub addon_repository_step : Step (State D) Problem
  unfolding repositories_check repositories_act repositories_verify
  addon_repository_step =
      step "addon-repository" repositories_check repositories_act repositories_verify
