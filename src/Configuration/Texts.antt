-- ===== src/Configuration/Texts.antt =====
-- Go's functions on texts, as the configuration uses them
-- (smart-home-agent/internal/config/config.go).
use smart_home_edge.Prelude.{
  String, Bool, true, false, ◌&&◌, ◌||◌, Option, none, some, List, [], ◌∷◌, ◌==◌, if◌then◌else◌,
}

-- `strings.HasPrefix(s, prefix)`.
unfoldable pub has_prefix : (prefix s : String) → Bool
has_prefix String.[] s = true
has_prefix (String.◌∷◌ p prefix) String.[] = false
has_prefix (String.◌∷◌ p prefix) (String.◌∷◌ c s) =
    (String.◌∷◌ p String.[] == String.◌∷◌ c String.[]) && has_prefix prefix s

-- `strings.Contains(s, part)`.
unfoldable pub contains_text : (part s : String) → Bool
unfolding has_prefix
contains_text part String.[] = part == ""
contains_text part (String.◌∷◌ c s) = has_prefix part (String.◌∷◌ c s) || contains_text part s

-- `strings.TrimLeft(s, "/")` and `strings.TrimRight(s, "/")`.
unfoldable pub trim_left : String → String
trim_left String.[] = String.[]
trim_left (String.◌∷◌ c s) =
    let rest = trim_left s in if String.◌∷◌ c String.[] == "/" then rest else String.◌∷◌ c s

unfoldable pub trim_right : String → String
trim_right String.[] = String.[]
trim_right (String.◌∷◌ c s) =
    let rest = trim_right s in
    if (String.◌∷◌ c String.[] == "/") && (rest == "") then String.[] else String.◌∷◌ c rest

-- `strings.Trim(s, "/")`.
unfoldable pub trim_slashes : String → String
unfolding trim_left trim_right
trim_slashes s = trim_right (trim_left s)

-- What stands after the first colon: `strings.Cut(s, ":")`.
unfoldable pub cut_colon : String → Option String
cut_colon String.[] = none
cut_colon (String.◌∷◌ c s) =
    let rest = cut_colon s in if String.◌∷◌ c String.[] == ":" then some s else rest

-- `strings.Split(s, "\n")`.
unfoldable pub split_lines : String → List String
split_lines String.[] = "" ∷ []
split_lines (String.◌∷◌ c s) = elim (split_lines s) [
  | [] ↦ []
  | line ∷ lines ↦
      if String.◌∷◌ c String.[] == "\n" then "" ∷ line ∷ lines else String.◌∷◌ c line ∷ lines
]
