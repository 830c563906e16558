-- ===== src/Dedupe/Redelivery.antt =====
-- A redelivered command id is refused while fewer than `limit` other ids were new since
-- (smart-home-agent/internal/agent/dedupe.go).
use mathlib.Core.List.{append_assoc}
use native.Mathlib.Nat.{add-zero}
use smart_home_edge.Prelude.{
  ℕ, zero, suc, ◌+◌, ◌-◌, ◌≤◌, ◌<◌, ◌≡◌, refl, ap, ◌∙◌, subst, inl, inr, String, Bool, true, false,
  Option, none, some, List, [], ◌∷◌, ◌++◌, arith, contains, length, drop, length-append,
  if◌then◌else◌, Bool-cases, eq_refl,
}
use smart_home_edge.Dedupe.{CmdDedupe, first_see}
use smart_home_edge.Dedupe.Window.{IsWell, Seen, arrived, first_see-Seen}

-- The ids that were processed one after another, and how many of them were new.
unfoldable pub see_all : CmdDedupe → List String → Option (CmdDedupe × ℕ)
see_all d [] = some (d, 0)
see_all d (id ∷ ids) = elim (first_see d id) [
  | none ↦ none
  | some (d', fresh) ↦ elim (see_all d' ids) [
    | none ↦ none
    | some (d'', n) ↦ some (d'', if fresh then suc n else n)
  ]
]

-- The id stands in the order with at most `n` ids behind it.
record IsRecent (id : String) (order : List String) (n : ℕ) : Type 0 where
  older : List String
  newer : List String
  shape : order ≡ older ++ id ∷ newer
  few : length newer ≤ n

contains-middle : (id : String) (xs ys : List String) → contains id (xs ++ id ∷ ys) ≡ true
contains-middle id [] ys = rw (eq_refl id)
contains-middle id (x ∷ xs) ys = rw (contains-middle id xs ys) (ground arith)

drop-middle :
    (k : ℕ) (id : String) (xs ys : List String)
    → k ≤ length xs
    → drop k (xs ++ id ∷ ys) ≡ drop k xs ++ id ∷ ys
drop-middle zero id xs ys h = refl
drop-middle (suc k) id [] ys h = absurd (omega arith)
drop-middle (suc k) id (x ∷ xs) ys h = drop-middle k id xs ys (omega arith)

IsRecent-arrived :
    (limit : ℕ) (id next : String) (order : List String) (n : ℕ)
    → length order ≤ limit
    → suc n < limit
    → IsRecent id order n
    → IsRecent id (arrived limit order next) (suc n)
IsRecent-arrived limit id next order n within room r = record {
  older = drop (length (order ++ next ∷ []) - limit) r.older;
  newer = r.newer ++ next ∷ [];
  shape =
      ap (drop (length (order ++ next ∷ []) - limit)) longer
      ∙ drop-middle _ id r.older (r.newer ++ next ∷ []) (
          omega (
            arith,
            length-append order (next ∷ []),
            r.few,
            ap length r.shape,
            length-append r.older (id ∷ r.newer),
          ));
  few = omega (arith, length-append r.newer (next ∷ []), r.few);
}
  where
    longer : order ++ next ∷ [] ≡ r.older ++ id ∷ (r.newer ++ next ∷ [])
    longer = ap (λ xs. xs ++ next ∷ []) r.shape ∙ append_assoc r.older (id ∷ r.newer) (next ∷ [])

abbrev plus : Bool → ℕ → ℕ
plus fresh n = if fresh then suc n else n

-- One more id: where `id` stands then.
record Advance (id next : String) (d : CmdDedupe) (n : ℕ) : Type 0 where
  after : CmdDedupe
  fresh : Bool
  returns : first_see d next ≡ some (after, fresh)
  well : IsWell after
  same_limit : after.limit ≡ d.limit
  recent : plus fresh n < after.limit → IsRecent id after.order (plus fresh n)

advance_by :
    (id next : String) (d e : CmdDedupe) (n : ℕ) (fresh : Bool)
    → IsWell d
    → e.limit ≡ d.limit
    → e.order ≡ (if fresh then arrived d.limit d.order next else d.order)
    → (n < d.limit → IsRecent id d.order n)
    → plus fresh n < e.limit
    → IsRecent id e.order (plus fresh n)
advance_by id next d e n true w same window r room =
    rw window (IsRecent-arrived d.limit id next d.order n w.within (omega arith) (r (omega arith)))
advance_by id next d e n false w same window r room = rw window (r (omega arith))

advance :
    (id next : String) (d : CmdDedupe) (n : ℕ)
    → IsWell d
    → (n < d.limit → IsRecent id d.order n)
    → Advance id next d n
advance id next d n w r =
    let s : Seen d next = first_see-Seen d next w in
    record {
      after = s.after;
      fresh = s.fresh;
      returns = s.returns;
      well = s.well;
      same_limit = s.same_limit;
      recent = advance_by id next d s.after n s.fresh w s.same_limit s.window r;
    }

-- The window after any ids of which `m` were new.
record Later (id : String) (d : CmdDedupe) (ids : List String) (n : ℕ) : Type 0 where
  after : CmdDedupe
  fresh_count : ℕ
  returns : see_all d ids ≡ some (after, fresh_count)
  well : IsWell after
  same_limit : after.limit ≡ d.limit
  recent : n + fresh_count < after.limit → IsRecent id after.order (n + fresh_count)

plus-add : (fresh : Bool) (n m : ℕ) → plus fresh n + m ≡ n + plus fresh m
plus-add true n m = omega arith
plus-add false n m = refl

later :
    (ids : List String) (id : String) (d : CmdDedupe) (n : ℕ)
    → IsWell d
    → (n < d.limit → IsRecent id d.order n)
    → Later id d ids n
unfolding see_all
later [] id d n w r = record {
  after = d;
  fresh_count = 0;
  returns = refl;
  well = w;
  same_limit = refl;
  recent = rw add-zero r;
}
later (next ∷ ids) id d n w r =
    let a : Advance id next d n = advance id next d n w r in
    let l : Later id a.after ids (plus a.fresh n) =
      later ids id a.after (plus a.fresh n) a.well a.recent in
    record {
      after = l.after;
      fresh_count = plus a.fresh l.fresh_count;
      returns = rw (a.returns, see_all) (rw (l.returns, see_all));
      well = l.well;
      same_limit = l.same_limit ∙ a.same_limit;
      recent = rw (← plus-add a.fresh n l.fresh_count) l.recent;
    }

known_refused :
    (d : CmdDedupe) (id : String)
    → IsWell d
    → contains id d.order ≡ true
    → first_see d id ≡ some (d, false)
unfolding first_see
known_refused d id w old = ground (arith, w.agrees id)

recent_contains :
    (id : String) (order : List String) (n : ℕ) → IsRecent id order n → contains id order ≡ true
recent_contains id order n r = rw r.shape (contains-middle id r.older r.newer)

just_arrived : (d : CmdDedupe) (id : String) → IsWell d → IsRecent id (arrived d.limit d.order id) 0
just_arrived d id w = record {
  older = drop (length (d.order ++ id ∷ []) - d.limit) d.order;
  newer = [];
  shape = drop-middle _ id d.order [] (omega (arith, w.positive, length-append d.order (id ∷ [])));
  few = omega arith;
}

first-IsRecent :
    (d e : CmdDedupe) (id : String)
    → IsWell d
    → first_see d id ≡ some (e, true)
    → IsWell e × (e.limit ≡ d.limit) × IsRecent id e.order 0
first-IsRecent d e id w h =
    let s : Seen d id = first_see-Seen d id w in
    let same : s.after ≡ e = cc (s.returns, h) in
    let new : s.fresh ≡ true = cc (s.returns, h) in
    subst (λ (c : CmdDedupe). IsWell c × (c.limit ≡ d.limit) × IsRecent id c.order 0) same
      (s.well, s.same_limit, rw (s.window, new) (just_arrived d id w))

-- After an id was seen for the first time, any ids may follow: as long as fewer than `limit` of
-- them were new, the id is still refused, so a redelivered command is not applied again.
pub redelivery_refused :
    (d e f : CmdDedupe) (id : String) (ids : List String) (m : ℕ)
    → IsWell d
    → first_see d id ≡ some (e, true)
    → see_all e ids ≡ some (f, m)
    → m < d.limit
    → first_see f id ≡ some (f, false)
redelivery_refused d e f id ids m w first after few =
    let (we, same_limit, recent) = first-IsRecent d e id w first in
    let l : Later id e ids 0 = later ids id e 0 we (λ _. recent) in
    let same : l.after ≡ f = cc (l.returns, after) in
    let count : l.fresh_count ≡ m = cc (l.returns, after) in
    subst (λ (c : CmdDedupe). first_see c id ≡ some (c, false)) same
      (known_refused l.after id l.well (
        recent_contains id l.after.order (0 + l.fresh_count)
          (l.recent (omega (arith, l.same_limit, same_limit, count)))))

-- An id that was just offered is refused, new or not, and nothing changes.
pub first_see_twice :
    (d : CmdDedupe) (id : String)
    → IsWell d
    → (e : CmdDedupe) × (fresh : Bool) × (first_see d id ≡ some (e, fresh))
      × (first_see e id ≡ some (e, false))
unfolding see_all
first_see_twice d id w = elim (Bool-cases (contains id d.order)) [
  | inl old ↦ (d, false, known_refused d id w old, known_refused d id w old)
  | inr new ↦
      let s = first_see-Seen d id w in
      let found : first_see d id ≡ some (s.after, true) = cc (s.returns, s.decides, new) in
      (s.after, true, found, redelivery_refused d s.after s.after id [] 0 w found refl w.positive)
]
