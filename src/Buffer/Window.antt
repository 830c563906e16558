-- ===== src/Buffer/Window.antt =====
-- The buffer keeps the newest messages: a window of `limit` over all that was pushed
-- (smart-home-agent/internal/agent/buffer.go).
use smart_home_edge.Prelude.{
  ℕ, zero, suc, ◌+◌, ◌-◌, ◌≤◌, ◌<◌, ◌≡◌, refl, ap, Option, none, some, List, [], ◌∷◌, ◌++◌, arith,
  length, drop, length-append, length-drop, leb, if◌then◌else◌, Bool-cases, inl, inr, sym, ◌∙◌,
  subst, leb→le, leb-false→lt,
}
use mathlib.Core.List.{append-nil, append_assoc}
use native.Mathlib.Nat.{zero-add, suc-add}
use smart_home_edge.Buffer.{Pending, UplinkBuffer, new_uplink_buffer, push, drain, tail_slice}

-- The last `n` entries of a list.
abbrev pub last {ℓ} : {A : Type ℓ} → ℕ → List A → List A
last n xs = drop (length xs - n) xs

pub record IsBounded (b : UplinkBuffer) : Type 0 where
  pub positive : 0 < b.limit
  pub within : length b.items ≤ b.limit

-- Pushes in a row; `none` when one of them panics.
pub push_all : UplinkBuffer → List Pending → Option UplinkBuffer
push_all b [] = some b
push_all b (p ∷ ps) = elim (push b p) [ none ↦ none | some b' ↦ push_all b' ps ]

last_within {ℓ} : {A : Type ℓ} (n : ℕ) (xs : List A) → length xs ≤ n → last n xs ≡ xs
last_within n xs h = let e : length xs - n ≡ 0 = omega arith in rw e

drop-nil {ℓ} : {A : Type ℓ} (k : ℕ) → drop {A = A} k [] ≡ []
drop-nil zero = refl
drop-nil (suc k) = refl

drop-append {ℓ} :
    {A : Type ℓ} (k : ℕ) (xs ys : List A) → k ≤ length xs → drop k xs ++ ys ≡ drop k (xs ++ ys)
drop-append zero xs ys h = refl
drop-append (suc k) [] ys h = absurd (omega arith)
drop-append (suc k) (x ∷ xs) ys h = drop-append k xs ys (omega arith)

drop-drop {ℓ} : {A : Type ℓ} (j k : ℕ) (xs : List A) → drop k (drop j xs) ≡ drop (j + k) xs
drop-drop zero k xs = rw zero-add
drop-drop (suc j) k [] = drop-nil k ∙ sym (drop-nil (suc j + k))
drop-drop (suc j) k (x ∷ xs) = rw suc-add (drop-drop j k xs)

-- Keeping the newest `n` of what was kept loses nothing that the newest `n` of all would hold.
last-last {ℓ} : {A : Type ℓ} (n : ℕ) (xs ys : List A) → last n (last n xs ++ ys) ≡ last n (xs ++ ys)
last-last n xs ys =
    rw (drop-append (length xs - n) xs ys (omega arith))
      (drop-drop (length xs - n) _ (xs ++ ys) ∙ ap (λ k. drop k (xs ++ ys)) count_lem)
  where
    count_lem :
        (length xs - n) + (length (drop (length xs - n) (xs ++ ys)) - n) ≡ length (xs ++ ys) - n
    count_lem = omega (arith, length-drop (length xs - n) (xs ++ ys), length-append xs ys)

kept_lem :
    (limit : ℕ) (items : List Pending) (p : Pending)
    → 0 < limit
    → length items ≤ limit
    → (if leb limit (length items) then tail_slice items else some items)
      ≡ some (drop (length (items ++ p ∷ []) - limit) items)
kept_lem limit [] p h k = ground arith
kept_lem limit (x ∷ xs) p h k = elim (Bool-cases (leb limit (suc (length xs)))) [
  | inl full ↦
      let e : length ((x ∷ xs) ++ p ∷ []) - limit ≡ 1 =
        omega (arith, leb→le limit (suc (length xs)) full, length-append (x ∷ xs) (p ∷ [])) in
      rw (full, e)
  | inr room ↦
      let e : length ((x ∷ xs) ++ p ∷ []) - limit ≡ 0 =
        omega (arith, leb-false→lt limit (suc (length xs)) room, length-append (x ∷ xs) (p ∷ [])) in
      rw (room, e)
]

-- A push on a bounded buffer does not panic; it keeps the newest `limit` messages.
pub push_window :
    (b : UplinkBuffer) (p : Pending)
    → IsBounded b
    → push b p ≡ some (record b { items = last b.limit (b.items ++ p ∷ []) })
unfolding push
push_window b p h = rw (kept_lem b.limit b.items p h.positive h.within) (
    ap (λ xs. some (record b { items = xs }))
      (drop-append _ b.items (p ∷ [])
        (omega (arith, h.positive, h.within, length-append b.items (p ∷ [])))))

length-last-le {ℓ} : {A : Type ℓ} (n : ℕ) (xs : List A) → length (last n xs) ≤ n
length-last-le n xs = omega (arith, length-drop (length xs - n) xs)

pub push-IsBounded :
    (b : UplinkBuffer) (p : Pending) {c : UplinkBuffer}
    → IsBounded b
    → push b p ≡ some c
    → IsBounded c × (c.limit ≡ b.limit)
push-IsBounded b p {c} h e =
    let same : record b { items = last b.limit (b.items ++ p ∷ []) } ≡ c = cc (push_window b p h) in
    subst (λ (o : UplinkBuffer). IsBounded o × (o.limit ≡ b.limit)) same
      (record { positive = h.positive; within = length-last-le b.limit (b.items ++ p ∷ []) }, refl)

pub drain-IsBounded : (b : UplinkBuffer) → IsBounded b → IsBounded (drain b).1
unfolding drain
drain-IsBounded b h = record { positive = h.positive; within = omega arith }

pub limit-drain : (b : UplinkBuffer) → (drain b).1.limit ≡ b.limit
unfolding drain
limit-drain b = refl

-- Pushing any messages onto a bounded buffer never panics and leaves exactly the newest `limit`
-- of those held before and those pushed, in order: the oldest are the ones that are dropped.
pub push_all_window :
    (b : UplinkBuffer) (ps : List Pending)
    → IsBounded b
    → push_all b ps ≡ some (record b { items = last b.limit (b.items ++ ps) })
unfolding push_all
push_all_window b [] h =
    rw append-nil
      (ap (λ xs. some (record b { items = xs })) (sym (last_within b.limit b.items h.within)))
push_all_window b (p ∷ ps) h =
    rw (push_window b p h, push_all)
      (push_all_window (record b { items = last b.limit (b.items ++ p ∷ []) }) ps
          (record { positive = h.positive; within = length-last-le b.limit (b.items ++ p ∷ []) })
        ∙ ap (λ xs. some (record b { items = xs }))
            (last-last b.limit (b.items ++ p ∷ []) ps
              ∙ ap (last b.limit) (append_assoc b.items (p ∷ []) ps)))

-- A drain after any pushes on a new buffer returns the newest `limit` of them, oldest first, and
-- leaves an empty buffer of the same limit.
pub drain-push_all :
    (limit : ℕ) (ps : List Pending)
    → 0 < limit
    → (b : UplinkBuffer) × (push_all (new_uplink_buffer limit) ps ≡ some b)
      × (drain b ≡ (last limit ps, new_uplink_buffer limit))
unfolding new_uplink_buffer drain
drain-push_all limit ps h = (
  record { items = last limit ps; limit = limit },
  push_all_window (record { items = []; limit = limit }) ps
      (record { positive = h; within = omega arith }),
  refl,
)
