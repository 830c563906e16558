-- ===== src/EntityMap/Bindings.antt =====
-- What the index holds (smart-home-agent/internal/entitymap/entitymap.go).
use smart_home_edge.Prelude.{
  ◌≡◌, refl, ap, ◌∙◌, inl, inr, String, false, ◌||◌, Option, none, some, List, [], ◌∷◌, arith,
  lookup, lookup-insert, lookup-nil, ◌==◌, eq_iff, if◌then◌else◌, Option-cases, All,
}
use smart_home_edge.EntityMap.{
  Entry, Map, empty_map, bind, bind_all, new, or_empty, entity_for_device, device_for_entity,
}

-- The last full entry for a device, or for an entity.
abbrev pub last_for_device : String → Option String → List Entry → Option String
last_for_device d o [] = o
last_for_device d o (x ∷ xs) =
    last_for_device d
      (if (x.device_uid == "") || (x.entity_id == "")
        then o
        else if x.device_uid == d
        then some x.entity_id
        else o)
      xs

abbrev pub last_for_entity : String → Option String → List Entry → Option String
last_for_entity e o [] = o
last_for_entity e o (x ∷ xs) =
    last_for_entity e
      (if (x.device_uid == "") || (x.entity_id == "")
        then o
        else if x.entity_id == e
        then some x.device_uid
        else o)
      xs

lookup-bind :
    (m : Map) (x : Entry) (d : String)
    → lookup d (bind m x).device_to_entity ≡ (
        if (x.device_uid == "") || (x.entity_id == "")
        then lookup d m.device_to_entity
        else if x.device_uid == d
        then some x.entity_id
        else lookup d m.device_to_entity)
unfolding bind
lookup-bind m x d = ground (arith, lookup-insert x.device_uid d x.entity_id m.device_to_entity)

lookup-bind_entity :
    (m : Map) (x : Entry) (e : String)
    → lookup e (bind m x).entity_to_device ≡ (
        if (x.device_uid == "") || (x.entity_id == "")
        then lookup e m.entity_to_device
        else if x.entity_id == e
        then some x.device_uid
        else lookup e m.entity_to_device)
unfolding bind
lookup-bind_entity m x e =
    ground (arith, lookup-insert x.entity_id e x.device_uid m.entity_to_device)

lookup-bind_all :
    (m : Map) (xs : List Entry) (d : String)
    → lookup d (bind_all m xs).device_to_entity ≡ last_for_device d (lookup d m.device_to_entity) xs
unfolding bind_all
lookup-bind_all m [] d = refl
lookup-bind_all m (x ∷ xs) d =
    lookup-bind_all (bind m x) xs d ∙ ap (λ o. last_for_device d o xs) (lookup-bind m x d)

lookup-bind_all_entity :
    (m : Map) (xs : List Entry) (e : String)
    → lookup e (bind_all m xs).entity_to_device ≡ last_for_entity e (lookup e m.entity_to_device) xs
unfolding bind_all
lookup-bind_all_entity m [] e = refl
lookup-bind_all_entity m (x ∷ xs) e =
    lookup-bind_all_entity (bind m x) xs e
    ∙ ap (λ o. last_for_entity e o xs) (lookup-bind_entity m x e)

-- `New` binds each device to the entity of the last entry of the list that names the device and
-- has both names, and each entity to the device of the last such entry for it; entries with an
-- empty name are skipped, and what no entry names reads as the empty text.
pub new_last :
    (xs : List Entry) (k : String)
    → (entity_for_device (new xs) k ≡ or_empty (last_for_device k none xs))
      × (device_for_entity (new xs) k ≡ or_empty (last_for_entity k none xs))
unfolding new entity_for_device device_for_entity
new_last xs k = (
  ap or_empty (lookup-bind_all empty_map xs k ∙ ap (λ o. last_for_device k o xs) (lookup-nil k)),
  ap or_empty
      (lookup-bind_all_entity empty_map xs k ∙ ap (λ o. last_for_entity k o xs) (lookup-nil k)),
)

-- No entry of the list names the entity.
abbrev pub Unnamed : String → List Entry → Type 0
Unnamed e xs = All (λ x. (x.entity_id == e) ≡ false) xs

-- No two entries of the list name one entity.
abbrev pub OneDeviceEach : List Entry → Type 0
OneDeviceEach [] = Unit
OneDeviceEach (x ∷ xs) = Unnamed x.entity_id xs × OneDeviceEach xs

abbrev Unbound : Map → List Entry → Type 0
Unbound m xs = All (λ x. lookup x.entity_id m.entity_to_device ≡ none) xs

record IsPaired (m : Map) : Type 0 where
  back :
      (d e : String) → lookup d m.device_to_entity ≡ some e → lookup e m.entity_to_device ≡ some d

bind-IsPaired :
    (m : Map) (x : Entry)
    → lookup x.entity_id m.entity_to_device ≡ none
    → IsPaired m
    → IsPaired (bind m x)
bind-IsPaired m x free h = record {
  back = λ d e p. ground (
    arith,
    lookup-bind m x d,
    lookup-bind_entity m x e,
    h.back d e,
    eq_iff x.device_uid d,
    eq_iff x.entity_id e,
  );
}

Unbound-bind :
    (m : Map) (x : Entry) (xs : List Entry)
    → Unnamed x.entity_id xs
    → Unbound m xs
    → Unbound (bind m x) xs
Unbound-bind m x [] u h = tt
Unbound-bind m x (y ∷ ys) u h = (
  ground (
    arith,
    lookup-bind_entity m x y.entity_id,
    u.0,
    eq_iff x.entity_id y.entity_id,
    eq_iff y.entity_id x.entity_id,
  ),
  Unbound-bind m x ys u.1 h.1,
)

bind_all-IsPaired :
    (m : Map) (xs : List Entry)
    → OneDeviceEach xs
    → Unbound m xs
    → IsPaired m
    → IsPaired (bind_all m xs)
unfolding bind_all
bind_all-IsPaired m [] o u h = h
bind_all-IsPaired m (x ∷ xs) o u h =
    bind_all-IsPaired (bind m x) xs o.1 (Unbound-bind m x xs o.0 u.1) (bind-IsPaired m x u.0 h)

Unbound-empty : (xs : List Entry) → Unbound empty_map xs
Unbound-empty [] = tt
Unbound-empty (x ∷ xs) = (lookup-nil x.entity_id, Unbound-empty xs)

-- When no two entries name one entity, a device that is mapped to an entity is the device that
-- this entity leads back to, so commands and reports of a device meet at one entity.
pub entity_round_trip :
    (xs : List Entry) (d : String)
    → OneDeviceEach xs
    → (entity_for_device (new xs) d == "") ≡ false
    → device_for_entity (new xs) (entity_for_device (new xs) d) ≡ d
unfolding new entity_for_device device_for_entity
entity_round_trip xs d o mapped =
    elim (Option-cases (lookup d (bind_all empty_map xs).device_to_entity)) [
      | inl absent ↦ absurd (no_text (rw absent at mapped))
      | inr (e, bound) ↦ rw bound (
          ap or_empty (
            (bind_all-IsPaired empty_map xs o (Unbound-empty xs)
                (record { back = λ d e p. cc (lookup-nil {V = String} d) })).back
              d e bound))
    ]
  where
    no_text : ("" == "") ≡ false → ⊥
    no_text p = cc
