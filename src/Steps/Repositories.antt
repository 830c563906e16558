-- ===== src/Steps/Repositories.antt =====
-- The add-on store repositories that a release needs
-- (smart-home-agent/internal/onboard/steps.go: `requiredRepositories`, `repoPresent`,
-- `normalizeRepo`, `dedupe`).
use smart_home_edge.Prelude.{
  String, Bool, true, false, not, ◌&&◌, ◌||◌, List, [], ◌∷◌, contains, ◌==◌, if◌then◌else◌,
}
use smart_home_edge.Fleet.{Addon, Manifest}
use smart_home_edge.Steps.{Host}

-- `strings.TrimSuffix`.
unfoldable pub trim_suffix : String → String → String
trim_suffix String.[] suffix = String.[]
trim_suffix (String.◌∷◌ c s) suffix =
    let rest = trim_suffix s suffix in
    if String.◌∷◌ c s == suffix then String.[] else String.◌∷◌ c rest

-- The texts that are not seen yet, each once.
unfoldable pub dedupe : (seen texts : List String) → List String
dedupe seen [] = []
dedupe seen (s ∷ rest) =
    let later = dedupe (s ∷ seen) rest in if contains s seen then dedupe seen rest else s ∷ later

abbrev pub community : List Addon → List String
community [] = []
community (a ∷ rest) =
    let later = community rest in
    if not a.core && not (a.repository == "") then a.repository ∷ later else later

unfoldable pub required_repositories : Manifest → List String
unfolding dedupe
required_repositories m = dedupe [] (m.addon_repository ∷ community m.addons)

module _ {D : Type 0} (host : Host D) where
  unfoldable pub normalize_repo : String → String
  unfolding trim_suffix
  normalize_repo url = host.to_lower (trim_suffix (trim_suffix (host.trim_space url) "/") ".git")

  abbrev pub is_among : List String → String → Bool
  is_among [] target = false
  is_among (h ∷ have) target = (normalize_repo h == target) || is_among have target

  unfoldable pub repo_present : List String → String → Bool
  unfolding normalize_repo
  repo_present have want = is_among have (normalize_repo want)

  unfoldable pub all_present : List String → List String → Bool
  unfolding repo_present
  all_present have [] = true
  all_present have (want ∷ rest) = repo_present have want && all_present have rest
