-- ===== src/Dedupe/Window.antt =====
-- The dedupe set is a window over the arrival order, and refuses a redelivery as long as fewer than
-- `limit` other ids arrived in between (smart-home-agent/internal/agent/dedupe.go).
use smart_home_edge.Prelude.{
  ℕ, suc, ◌-◌, ◌≤◌, ◌<◌, ◌≡◌, refl, inl, inr, String, Bool, true, false, not, ◌||◌, some, List, [],
  ◌∷◌, ◌++◌, arith, Dict, lookup, insert, erase, lookup-insert, lookup-erase, is_some, contains,
  length, drop, length-append, leb, leb→le, leb-false→lt, if◌then◌else◌, Bool-cases, ◌==◌, eq_iff,
}
use smart_home_edge.Dedupe.{CmdDedupe, new_cmd_dedupe, first_see}

abbrev Distinct : List String → Type 0
Distinct [] = Unit
Distinct (x ∷ xs) = (contains x xs ≡ false) × Distinct xs

-- The set and the order hold the same ids, each once, and at most `limit` of them.
pub record IsWell (d : CmdDedupe) : Type 0 where
  pub positive : 0 < d.limit
  pub within : length d.order ≤ d.limit
  pub agrees : (k : String) → is_some (lookup k d.seen) ≡ contains k d.order
  pub once : Distinct d.order

contains-append :
    (k x : String) (xs : List String) → contains k (xs ++ x ∷ []) ≡ (contains k xs || (x == k))
contains-append k x [] = ground arith
contains-append k x (y ∷ ys) = ground (arith, contains-append k x ys)

Distinct-append :
    (x : String) (xs : List String) → Distinct xs → contains x xs ≡ false → Distinct (xs ++ x ∷ [])
Distinct-append x [] d h = (refl, tt)
Distinct-append x (y ∷ ys) d h = (
  ground (arith, contains-append y x ys, eq_iff x y, eq_iff y x),
  Distinct-append x ys d.1 (ground arith),
)

-- Forgetting the oldest id of a well-formed set.
module _ (o : String) (rest : List String) (seen : Dict (Unit {0})) where
  agrees-evict :
      ((k : String) → is_some (lookup k seen) ≡ contains k (o ∷ rest))
      → contains o rest ≡ false
      → (k : String) → is_some (lookup k (erase o seen)) ≡ contains k rest
  agrees-evict h fresh k = rw lookup-erase (ground (arith, h k, eq_iff o k))

agrees-remember :
    (id : String) (order : List String) (seen : Dict (Unit {0}))
    → ((k : String) → is_some (lookup k seen) ≡ contains k order)
    → (k : String) → is_some (lookup k (insert id tt seen)) ≡ contains k (order ++ id ∷ [])
agrees-remember id order seen h k =
    rw (lookup-insert, contains-append k id order) (ground (arith, h k))

-- What `first_see` makes of the order of arrival.
abbrev pub arrived : ℕ → List String → String → List String
arrived limit order id = drop (length (order ++ id ∷ []) - limit) (order ++ id ∷ [])

pub record Seen (d : CmdDedupe) (id : String) : Type 0 where
  pub after : CmdDedupe
  pub fresh : Bool
  pub returns : first_see d id ≡ some (after, fresh)
  pub well : IsWell after
  pub same_limit : after.limit ≡ d.limit
  pub decides : fresh ≡ not (contains id d.order)
  pub window : after.order ≡ (if fresh then arrived d.limit d.order id else d.order)

abbrev with_order : Dict (Unit {0}) → ℕ → List String → CmdDedupe
with_order seen limit order = record { seen = seen; order = order; limit = limit }

module _ (seen : Dict (Unit {0})) (limit : ℕ) (id : String) where
  refuse :
      (order : List String)
      → IsWell (with_order seen limit order)
      → contains id order ≡ true
      → Seen (with_order seen limit order) id
  unfolding first_see
  refuse order h old = record {
    after = with_order seen limit order;
    fresh = false;
    returns = ground (arith, h.agrees id);
    well = h;
    same_limit = refl;
    decides = rw old;
    window = refl;
  }

  accept_full :
      (o : String) (rest : List String)
      → IsWell (with_order seen limit (o ∷ rest))
      → contains id (o ∷ rest) ≡ false
      → limit ≡ suc (length rest)
      → Seen (with_order seen limit (o ∷ rest)) id
  unfolding first_see
  accept_full o rest h new full = record {
    after = with_order (insert id tt (erase o seen)) limit (rest ++ id ∷ []);
    fresh = true;
    returns = ground (arith, h.agrees id);
    well = record {
      positive = h.positive;
      within = omega (arith, length-append rest (id ∷ []));
      agrees = agrees-remember id rest (erase o seen) (agrees-evict o rest seen h.agrees h.once.0);
      once = Distinct-append id rest h.once.1 (ground arith);
    };
    same_limit = refl;
    decides = rw new;
    window =
        let e : length ((o ∷ rest) ++ id ∷ []) - limit ≡ 1 =
          omega (arith, length-append rest (id ∷ [])) in
        rw e;
  }

  accept_room :
      (order : List String)
      → IsWell (with_order seen limit order)
      → contains id order ≡ false
      → length order < limit
      → Seen (with_order seen limit order) id
  unfolding first_see
  accept_room order h new room = record {
    after = with_order (insert id tt seen) limit (order ++ id ∷ []);
    fresh = true;
    returns = ground (arith, h.agrees id);
    well = record {
      positive = h.positive;
      within = omega (arith, length-append order (id ∷ []));
      agrees = agrees-remember id order seen h.agrees;
      once = Distinct-append id order h.once new;
    };
    same_limit = refl;
    decides = rw new;
    window =
        let e : length (order ++ id ∷ []) - limit ≡ 0 =
          omega (arith, length-append order (id ∷ [])) in
        rw e;
  }

  seen_by_order :
      (order : List String)
      → IsWell (with_order seen limit order)
      → Seen (with_order seen limit order) id
  seen_by_order [] h = accept_room [] h refl h.positive
  seen_by_order (o ∷ rest) h = elim (Bool-cases (contains id (o ∷ rest))) [
    | inl old ↦ refuse (o ∷ rest) h old
    | inr new ↦ elim (Bool-cases (leb limit (suc (length rest)))) [
      | inl full ↦
          accept_full o rest h new (omega (arith, leb→le limit (suc (length rest)) full, h.within))
      | inr room ↦
          accept_room (o ∷ rest) h new (omega (arith, leb-false→lt limit (suc (length rest)) room))
    ]
  ]

-- On a well-formed set `first_see` does not panic and keeps the set well-formed. It answers true
-- exactly when the id is not among those remembered; then the id becomes the newest of the last
-- `limit` arrivals, and otherwise the order stays as it was.
pub first_see-Seen : (d : CmdDedupe) (id : String) → IsWell d → Seen d id
first_see-Seen d id h = seen_by_order d.seen d.limit id d.order h

pub new_cmd_dedupe-IsWell : (limit : ℕ) → 0 < limit → IsWell (new_cmd_dedupe limit)
unfolding new_cmd_dedupe lookup
new_cmd_dedupe-IsWell limit h = record {
  positive = h;
  within = omega arith;
  agrees = λ k. refl;
  once = tt;
}
