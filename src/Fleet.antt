-- ===== src/Fleet.antt =====
-- The bootstrap set of add-ons (smart-home-agent/fleet/fleet.go). `strings.TrimSpace` is a
-- parameter; the manifest is given decoded.
use Prim.Native.String.{◌++◌}
use smart_home_edge.Prelude.{
  ℕ, suc, String, Bool, not, ◌&&◌, ◌||◌, Option, none, some, List, [], ◌∷◌, is_some, ◌==◌,
  if◌then◌else◌,
}

pub record Addon : Type 0 where
  pub name : String
  pub match : String
  pub slug : String
  pub repository : String
  pub core : Bool

pub record Manifest : Type 0 where
  pub addon_repository : String
  pub addons : List Addon

abbrev pub agent_match : String
agent_match = "smart_home_agent"

abbrev pub find_match : String → List Addon → Option Addon
find_match m [] = none
find_match m (a ∷ rest) = if a.match == m then some a else find_match m rest

unfoldable pub find : Manifest → String → Option Addon
find m match = find_match match m.addons

unfoldable pub agent : Manifest → Option Addon
unfolding find
agent m = find m agent_match

-- `strings.HasSuffix(s, t)`.
unfoldable pub has_suffix : String → String → Bool
has_suffix String.[] t = t == ""
has_suffix (String.◌∷◌ c s) t = (String.◌∷◌ c s == t) || has_suffix s t

unfoldable pub resolves : Addon → String → Bool
unfolding has_suffix
resolves a full_slug =
    if not (a.slug == "")
    then full_slug == a.slug
    else (full_slug == a.match) || has_suffix full_slug ("_" ++ a.match)

pub data Invalid : Type 0 where
  no_repository no_addons no_agent : Invalid
  unnamed : (index : ℕ) → Invalid

abbrev pub check_named : (String → String) → ℕ → List Addon → Option Invalid
check_named trim_space i [] = none
check_named trim_space i (a ∷ rest) =
    if (trim_space a.match == "") && (trim_space a.slug == "")
    then some (unnamed i)
    else check_named trim_space (suc i) rest

abbrev or_no_agent : Manifest → Option Invalid → Option Invalid
or_no_agent m (some e) = some e
or_no_agent m none = if is_some (agent m) then none else some no_agent

abbrev nonempty : (String → String) → Manifest → List Addon → Option Invalid
nonempty trim_space m [] = some no_addons
nonempty trim_space m (a ∷ rest) = or_no_agent m (check_named trim_space 0 (a ∷ rest))

-- `none` is a nil error.
unfoldable pub validate : (String → String) → Manifest → Option Invalid
unfolding agent
validate trim_space m =
    if trim_space m.addon_repository == ""
    then some no_repository
    else nonempty trim_space m m.addons
