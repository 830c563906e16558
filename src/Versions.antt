-- ===== src/Versions.antt =====
-- The applied desired versions, in memory and in /data/applied-versions.json
-- (smart-home-agent/internal/agent/versions.go). The JSON of the file is the map itself; whether
-- the write and the rename succeed is an argument.
pub mod Monotone
use smart_home_edge.Prelude.{
  String, Bool, true, false, Option, none, some, [], ℤ, leb_ℤ, Dict, lookup, insert, if◌then◌else◌,
}

pub record VersionStore : Type 0 where
  pub applied : Dict ℤ
  -- the file, once there is one
  pub disk : Option (Dict ℤ)

-- A missing file leaves the map empty.
unfoldable pub new_version_store : Option (Dict ℤ) → VersionStore
new_version_store none = record { applied = []; disk = none }
new_version_store (some stored) = record { applied = stored; disk = some stored }

unfoldable pub get : VersionStore → String → Option ℤ
get s device = lookup device s.applied

-- Write to a temporary file, then rename: the file changes whole or not at all.
persist : Bool → VersionStore → VersionStore
persist written s = if written then record s { disk = some s.applied } else s

abbrev no_newer : Option ℤ → ℤ → Bool
no_newer none version = false
no_newer (some current) version = leb_ℤ version current

unfoldable pub set : Bool → VersionStore → String → ℤ → VersionStore
unfolding persist
set written s device version =
    if no_newer (lookup device s.applied) version
    then s
    else persist written (record s { applied = insert device version s.applied })
