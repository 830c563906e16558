-- ===== src/Agent/Action.antt =====
-- `splitAction` of smart-home-agent/internal/agent/agent.go, on characters: the dot is one byte, so
-- the cut is where the source's cut in bytes is.
use Prim.Native.Char.{code}
use smart_home_edge.Prelude.{String, ◌||◌, Option, none, some, ◌==◌, nat_eq, if◌then◌else◌}

-- The text before the first dot and the text after it.
unfoldable pub cut_dot : String → Option (String × String)
cut_dot String.[] = none
cut_dot (String.◌∷◌ c s) =
    if nat_eq (code c) b'.'
    then some ("", s)
    else elim (cut_dot s) [ none ↦ none | some (d, t) ↦ some (String.◌∷◌ c d, t) ]

abbrev named : Option (String × String) → Option (String × String)
named none = none
named (some (domain, service)) =
    if (domain == "") || (service == "") then none else some (domain, service)

-- `none` is `ok = false`.
unfoldable pub split_action : String → Option (String × String)
unfolding cut_dot
split_action action = named (cut_dot action)
