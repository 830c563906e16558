-- ===== src/Versions/Monotone.antt =====
-- The version store never goes back, and a reboot never sees a version that was not applied
-- (smart-home-agent/internal/agent/versions.go).
use smart_home_edge.Prelude.{
  ◌≡◌, String, Bool, Option, none, some, arith, ℤ, ◌≤ℤ◌, leb_ℤ, Dict, lookup, lookup-insert, ◌==◌,
  eq_iff, if◌then◌else◌, inl, inr, text-cases, eq_refl, ◌⊎◌, sym, ◌∙◌,
}
use smart_home_edge.Versions.{VersionStore, new_version_store, get, set}

-- Nothing is below nothing; a version is below no lack of one.
abbrev pub AtMost : Option ℤ → Option ℤ → Type 0
AtMost none o = Unit
AtMost (some v) none = ⊥
AtMost (some v) (some w) = v ≤ℤ w

pub AtMost-refl : (o : Option ℤ) → AtMost o o
AtMost-refl none = tt
AtMost-refl (some v) = omega arith

pub AtMost-trans : (a b c : Option ℤ) → AtMost a b → AtMost b c → AtMost a c
AtMost-trans none b c h k = tt
AtMost-trans (some a) none c h k = absurd h
AtMost-trans (some a) (some b) none h k = k
AtMost-trans (some a) (some b) (some c) h k = omega arith

-- The larger of what is stored and a new version.
abbrev pub raised : Option ℤ → ℤ → ℤ
raised none v = v
raised (some w) v = if leb_ℤ v w then w else v

AtMost-raised : (o : Option ℤ) (v : ℤ) → AtMost o (some (raised o v))
AtMost-raised none v = tt
AtMost-raised (some w) v = ground arith

-- `set` stores the larger of the old version and the new one for its device, and leaves the
-- version of every other device as it was.
pub get-set :
    (written : Bool) (s : VersionStore) (device other : String) (v : ℤ)
    → get (set written s device v) other
      ≡ (if device == other then some (raised (get s device) v) else get s other)
unfolding get set
get-set written s device other v =
    ground (arith, lookup-insert device other v s.applied, eq_iff device other)

-- The stored version of every device only grows.
pub set-AtMost :
    (written : Bool) (s : VersionStore) (device other : String) (v : ℤ)
    → AtMost (get s other) (get (set written s device v) other)
set-AtMost written s device other v = elim (text-cases device other) [
  | inl same ↦ rw get-set (rw same (rw eq_refl (AtMost-raised (get s other) v)))
  | inr (_, differ) ↦ rw get-set (rw differ (AtMost-refl (get s other)))
]

-- The file never runs ahead of the memory.
pub record IsBehind (s : VersionStore) : Type 0 where
  pub behind :
      (stored : Dict ℤ) → s.disk ≡ some stored → (k : String) → AtMost (lookup k stored) (get s k)

pub new_version_store-IsBehind : (file : Option (Dict ℤ)) → IsBehind (new_version_store file)
unfolding new_version_store get
new_version_store-IsBehind none = record { behind = λ stored e k. cc }
new_version_store-IsBehind (some m) = record {
  behind = λ stored e k. let same : m ≡ stored = cc in rw same (AtMost-refl (lookup k stored));
}

disk-set :
    (written : Bool) (s : VersionStore) (device : String) (v : ℤ)
    → ((set written s device v).disk ≡ s.disk)
      ⊎ ((set written s device v).disk ≡ some (set written s device v).applied)
unfolding set
disk-set written s device v = ground arith

-- When no version on disk exceeds the one in memory, none does after a `set`, whether or not the
-- file is written.
pub set-IsBehind :
    (written : Bool) (s : VersionStore) (device : String) (v : ℤ)
    → IsBehind s
    → IsBehind (set written s device v)
unfolding get
set-IsBehind written s device v h = record {
  behind = λ stored e k. elim (disk-set written s device v) [
    | inl same ↦
        AtMost-trans _ (get s k) _ (h.behind stored (sym same ∙ e) k)
          (set-AtMost written s device k v)
    | inr now ↦
        let same : stored ≡ (set written s device v).applied = cc (e, now) in
        rw same (AtMost-refl (lookup k (set written s device v).applied))
  ];
}
