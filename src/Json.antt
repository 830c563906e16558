-- ===== src/Json.antt =====
-- Decoded JSON, the `any` values that messages carry. A number is kept as its literal: what the
-- program reads of one as a float64 is a parameter where it is read. A Go map is an object's list
-- of fields, each key once.
use smart_home_edge.Prelude.{String, Bool, Option, none, some, [], ◌∷◌, Dict}

mutual
  pub data Json : Type 0 where
    null : Json
    bool : Bool → Json
    num : String → Json
    str : String → Json
    arr : Items → Json
    obj : Fields → Json

  pub data Items : Type 0 where
    nil : Items
    cons : Json → Items → Items

  pub data Fields : Type 0 where
    end : Fields
    field : String → Json → Fields → Fields

abbrev pub entries : Fields → Dict Json
entries end = []
entries (field k v fs) = (k, v) ∷ entries fs

-- `v, _ := x.(string)`: a missing value or one of another type is the empty text.
abbrev pub as_string : Option Json → String
as_string (some (str s)) = s
as_string (some null) = ""
as_string (some (bool b)) = ""
as_string (some (num n)) = ""
as_string (some (arr xs)) = ""
as_string (some (obj fs)) = ""
as_string none = ""

-- `v, _ := x.(map[string]any)`: a missing value or one of another type is the nil map.
abbrev pub as_map : Option Json → Dict Json
as_map (some (obj fs)) = entries fs
as_map (some null) = []
as_map (some (bool b)) = []
as_map (some (num n)) = []
as_map (some (str s)) = []
as_map (some (arr xs)) = []
as_map none = []
