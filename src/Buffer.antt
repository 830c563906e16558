-- ===== src/Buffer.antt =====
-- The bounded buffer of uplink messages, drop-oldest
-- (smart-home-agent/internal/agent/buffer.go). The slice of messages is a list, oldest first; the
-- mutex makes each method one step.
pub mod Window
use smart_home_edge.Prelude.{
  ℕ, String, Bool, Option, none, some, List, [], ◌∷◌, ◌++◌, length, leb, if◌then◌else◌,
}

pub record Pending : Type 0 where
  pub topic : String
  pub payload : String
  pub qos : ℕ
  pub retain : Bool

pub record UplinkBuffer : Type 0 where
  pub items : List Pending
  pub limit : ℕ

unfoldable pub new_uplink_buffer : ℕ → UplinkBuffer
new_uplink_buffer limit = record { items = []; limit = limit }

-- `b.items[1:]`, which panics (`none`) on an empty slice.
abbrev pub tail_slice {ℓ} : {A : Type ℓ} → List A → Option (List A)
tail_slice [] = none
tail_slice (x ∷ xs) = some xs

abbrev append_to : UplinkBuffer → Pending → Option (List Pending) → Option UplinkBuffer
append_to b p none = none
append_to b p (some kept) = some (record b { items = kept ++ p ∷ [] })

-- `none` is Go's panic.
unfoldable pub push : UplinkBuffer → Pending → Option UplinkBuffer
push b p = append_to b p (if leb b.limit (length b.items) then tail_slice b.items else some b.items)

-- The messages, oldest first, and the emptied buffer.
unfoldable pub drain : UplinkBuffer → List Pending × UplinkBuffer
drain b = (b.items, record b { items = [] })
