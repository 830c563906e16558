-- ===== src/Prelude/Maps.antt =====
-- Go maps with text keys, as association lists: a read of a missing key is `none`, a write replaces
-- the entry of its key or adds one at the end. The order of iteration, which Go leaves open, is
-- the order of the list.
use Prim.Native.String.{String}
use mathlib.Core.Path.{◌≡◌, refl}
use mathlib.Core.Option.{Option, none, some}
use mathlib.Core.List.{List, [], ◌∷◌}
use native.Mathlib.Omega.{arith}
use text.Mathlib.Text.{◌==◌}
use text.Mathlib.TextEquality.{eq_iff}
use text.Mathlib.TextPositions.{eq_refl}
use smart_home_edge.Prelude.Tests.{if◌then◌else◌}

abbrev pub Dict {ℓ} : Type ℓ → Type ℓ
Dict V = List (String × V)

module _ {ℓ} {V : Type ℓ} where
  unfoldable pub lookup : String → Dict V → Option V
  lookup name [] = none
  lookup name ((key, value) ∷ rest) = if key == name then some value else lookup name rest

  unfoldable pub insert : String → V → Dict V → Dict V
  insert name new [] = (name, new) ∷ []
  insert name new ((key, old) ∷ rest) =
      let later = insert name new rest in
      (if key == name then (name, new) ∷ rest else (key, old) ∷ later)

  unfoldable pub erase : String → Dict V → Dict V
  erase k [] = []
  erase k ((j, w) ∷ m) = let rest = erase k m in if j == k then rest else (j, w) ∷ rest

  abbrev pub keys : Dict V → List String
  keys [] = []
  keys ((k, v) ∷ m) = k ∷ keys m

  pub lookup-nil : (k : String) → lookup k [] ≡ none
  unfolding lookup
  lookup-nil k = refl

  pub lookup-insert :
      (name asked : String) (new : V) (d : Dict V)
      → lookup asked (insert name new d) ≡ (if name == asked then some new else lookup asked d)
  unfolding insert lookup
  lookup-insert name asked new [] = refl
  lookup-insert name asked new ((key, old) ∷ rest) = ground (
    arith,
    lookup-insert name asked new rest,
    eq_iff key name,
    eq_iff key asked,
    eq_iff name asked,
  )

  pub lookup-insert_self :
      (name : String) (new : V) (d : Dict V) → lookup name (insert name new d) ≡ some new
  lookup-insert_self name new d = rw lookup-insert (rw eq_refl refl)

  pub lookup-erase :
      (k j : String) (m : Dict V) → lookup j (erase k m) ≡ (if k == j then none else lookup j m)
  unfolding lookup erase
  lookup-erase k j [] = ground arith
  lookup-erase k j ((i, v) ∷ m) =
      ground (arith, lookup-erase k j m, eq_iff i k, eq_iff i j, eq_iff k j)

pub ruleset dict_laws = (lookup-nil, lookup-insert, lookup-erase)
