-- ===== src/Dedupe.antt =====
-- The bounded set of command ids that were processed
-- (smart-home-agent/internal/agent/dedupe.go). The Go set `map[string]struct{}` is a `Dict` of
-- units, the slice of arrival order a list, oldest first.
pub mod Window
pub mod Redelivery
use smart_home_edge.Prelude.{
  ℕ, String, Bool, true, false, Option, none, some, List, [], ◌∷◌, ◌++◌, Dict, lookup, insert,
  erase, is_some, length, leb, if◌then◌else◌,
}

pub record CmdDedupe : Type 0 where
  pub seen : Dict (Unit {0})
  pub order : List String
  pub limit : ℕ

unfoldable pub new_cmd_dedupe : ℕ → CmdDedupe
new_cmd_dedupe limit = record { seen = []; order = []; limit = limit }

-- `oldest := d.order[0]; d.order = d.order[1:]; delete(d.seen, oldest)`; the index panics (`none`)
-- on an empty slice.
evict : CmdDedupe → List String → Option CmdDedupe
evict d [] = none
evict d (oldest ∷ rest) = some (record d { order = rest; seen = erase oldest d.seen })

remember : String → Option CmdDedupe → Option (CmdDedupe × Bool)
remember id none = none
remember id (some d) =
    some (record d { seen = insert id tt d.seen; order = d.order ++ id ∷ [] }, true)

-- The new state and whether the id is seen for the first time; `none` is Go's panic.
unfoldable pub first_see : CmdDedupe → String → Option (CmdDedupe × Bool)
unfolding evict remember
first_see d id =
    if is_some (lookup id d.seen)
    then some (d, false)
    else remember id (if leb d.limit (length d.order) then evict d d.order else some d)
