-- ===== src/Contract/Topics/Separation.antt =====
-- Topics of one gateway stay apart (smart-home-agent/internal/contract/contract.go).
use Prim.Native.Char.{code}
use Prim.Native.String.{String, ◌++◌}
use text.Mathlib.TextLemmas.{append_cancel_left, cons-append}
use smart_home_edge.Prelude.{ℕ, ◌<◌, ◌≡◌, ◌≢◌, refl, ap, arith, ◌∙◌, sym}
use smart_home_edge.Contract.Topics.{
  root, state_topic, event_topic, inventory_topic, command_ack_topic, availability_topic,
  command_topic, desired_shadow_topic, config_topic, versions_topic, update_topic,
  update_status_topic,
}

-- What the agent publishes, and what it subscribes to by name.
pub data Uplink : Type 0 where
  state event : String → Uplink
  inventory ack availability versions update_status : Uplink

pub data Downlink : Type 0 where
  shadow : String → Downlink
  command config update : Downlink

abbrev pub uplink_topic : String → Uplink → String
uplink_topic uid (state device) = state_topic uid device
uplink_topic uid (event kind) = event_topic uid kind
uplink_topic uid inventory = inventory_topic uid
uplink_topic uid ack = command_ack_topic uid
uplink_topic uid availability = availability_topic uid
uplink_topic uid versions = versions_topic uid
uplink_topic uid update_status = update_status_topic uid

abbrev pub downlink_topic : String → Downlink → String
downlink_topic uid (shadow device) = desired_shadow_topic uid device
downlink_topic uid command = command_topic uid
downlink_topic uid config = config_topic uid
downlink_topic uid update = update_topic uid

abbrev uplink_tail : Uplink → String
uplink_tail (state device) = "/state/" ++ device
uplink_tail (event kind) = "/event/" ++ kind
uplink_tail inventory = "/inventory"
uplink_tail ack = "/cmd/ack"
uplink_tail availability = "/availability"
uplink_tail versions = "/versions"
uplink_tail update_status = "/update/status"

abbrev downlink_tail : Downlink → String
downlink_tail (shadow device) = "/shadow/desired/" ++ device
downlink_tail command = "/cmd"
downlink_tail config = "/config"
downlink_tail update = "/update"

uplink_split :
    (uid : String) (k : Uplink) → uplink_topic uid k ≡ root ++ "/" ++ uid ++ uplink_tail k
unfolding state_topic event_topic inventory_topic command_ack_topic availability_topic
    versions_topic update_status_topic
uplink_split uid (state device) = refl
uplink_split uid _ = refl

downlink_split :
    (uid : String) (k : Downlink) → downlink_topic uid k ≡ root ++ "/" ++ uid ++ downlink_tail k
unfolding desired_shadow_topic command_topic config_topic update_topic
downlink_split uid (shadow device) = refl
downlink_split uid _ = refl

-- Characters 2, 3 and 5 of a tail tell the tails apart.
abbrev at : ℕ → String → ℕ
at n String.[] = 0
at ℕ.zero (String.◌∷◌ c s) = code c
at (ℕ.suc n) (String.◌∷◌ c s) = at n s

abbrev size : String → ℕ
size String.[] = 0
size (String.◌∷◌ c s) = ℕ.suc (size s)

at-append : (n : ℕ) (s t : String) → n < size s → at n (s ++ t) ≡ at n s
at-append n String.[] t h = absurd (omega arith)
at-append ℕ.zero (String.◌∷◌ c s) t h = ap (at 0) (cons-append c s t)
at-append (ℕ.suc n) (String.◌∷◌ c s) t h =
    ap (at (ℕ.suc n)) (cons-append c s t) ∙ at-append n s t (omega arith)

tails_differ : (k : Uplink) (l : Downlink) → uplink_tail k ≢ downlink_tail l
tails_differ (state d) (shadow e) h = omega (
  arith,
  ap (at 2) h,
  at-append 2 "/state/" d (omega arith),
  at-append 2 "/shadow/desired/" e (omega arith),
)
tails_differ (state d) command h = omega (arith, ap (at 1) h, at-append 1 "/state/" d (omega arith))
tails_differ (state d) config h = omega (arith, ap (at 1) h, at-append 1 "/state/" d (omega arith))
tails_differ (state d) update h = omega (arith, ap (at 1) h, at-append 1 "/state/" d (omega arith))
tails_differ (event d) (shadow e) h = omega (
  arith,
  ap (at 1) h,
  at-append 1 "/event/" d (omega arith),
  at-append 1 "/shadow/desired/" e (omega arith),
)
tails_differ (event d) command h = omega (arith, ap (at 1) h, at-append 1 "/event/" d (omega arith))
tails_differ (event d) config h = omega (arith, ap (at 1) h, at-append 1 "/event/" d (omega arith))
tails_differ (event d) update h = omega (arith, ap (at 1) h, at-append 1 "/event/" d (omega arith))
tails_differ _ (shadow e) h =
    omega (arith, ap (at 1) h, at-append 1 "/shadow/desired/" e (omega arith))
tails_differ _ command h = omega (arith, ap (at 1) h, ap (at 4) h)
tails_differ _ config h = omega (arith, ap (at 1) h, ap (at 2) h)
tails_differ _ update h = omega (arith, ap (at 1) h, ap (at 7) h)

-- No topic that a gateway publishes on is one of the topics that carry the cloud's messages to it,
-- so the agent never receives its own uplink as a command, a config or a desired state.
pub uplink-ne-downlink :
    (uid : String) (k : Uplink) (l : Downlink) → uplink_topic uid k ≢ downlink_topic uid l
uplink-ne-downlink uid k l h = tails_differ k l (
    append_cancel_left uid _ _ (
      append_cancel_left "/" _ _
        (append_cancel_left root _ _ (sym (uplink_split uid k) ∙ h ∙ downlink_split uid l))))
