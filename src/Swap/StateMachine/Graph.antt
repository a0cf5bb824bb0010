-- ===== src/Swap/StateMachine/Graph.antt =====
-- The transition table as a graph, and the events as names of its nodes.
use spark_ln_address.Prelude.{
  ◌≡◌, refl, ◌≢◌, All, ◌↔◌, true, false, List, [], ◌∷◌, some, ok, Text, codes, text_eq, arith,
  text_eq_sound,
}
use spark_ln_address.Swap.Status.{
  FlashnetOrderStatus, pending_payment, processing, confirming, bridging, swapping,
  awaiting_approval, paused, delivering, delivered, refunding, refunded, failed, expired,
  unfulfilled, has, status_eq_sound,
}
use spark_ln_address.Swap.StateMachine.{
  allowed_transitions, validate_transition, classify_transition, apply, own_member,
  map_event_to_status, event_mapping,
}

-- The statuses that an order never leaves.
pub data IsTerminal : FlashnetOrderStatus → Type 0 where
  delivered_terminal : IsTerminal delivered
  failed_terminal : IsTerminal failed
  expired_terminal : IsTerminal expired
  refunded_terminal : IsTerminal refunded

infix 40 ◌⟶◌ ◌⟶*◌
pub data ◌⟶◌ (a b : FlashnetOrderStatus) : Type 0 where
  edge : has (allowed_transitions a) b ≡ true → a ⟶ b

pub data ◌⟶*◌ : FlashnetOrderStatus → FlashnetOrderStatus → Type 0 where
  here : {s : FlashnetOrderStatus} → s ⟶* s
  step : {s t u : FlashnetOrderStatus} → s ⟶ t → t ⟶* u → s ⟶* u

no_self_edge : (s : FlashnetOrderStatus) → has (allowed_transitions s) s ≡ false
unfolding has allowed_transitions
no_self_edge pending_payment = refl
no_self_edge _ = refl

-- The classifier applies a transition between two known statuses exactly where the validator
-- accepts it.
pub classify_iff_validate :
    (current next : FlashnetOrderStatus)
    → (classify_transition (some current) (some next) ≡ ok (apply next))
      ↔ (validate_transition (some current) next ≡ ok next)
unfolding classify_transition validate_transition
classify_iff_validate c n = ground (arith, no_self_edge c, status_eq_sound c n)

-- The statuses delivered, failed, expired and refunded, and no others, have no transition in the
-- table.
pub IsTerminal-iff : (s : FlashnetOrderStatus) → IsTerminal s ↔ (allowed_transitions s ≡ [])
unfolding allowed_transitions
IsTerminal-iff delivered = (λ t. refl, λ e. delivered_terminal)
IsTerminal-iff failed = (λ t. refl, λ e. failed_terminal)
IsTerminal-iff expired = (λ t. refl, λ e. expired_terminal)
IsTerminal-iff refunded = (λ t. refl, λ e. refunded_terminal)
IsTerminal-iff _ = ((λ t. elim t [ ]), λ e. cc)

ruleset paths = (here, step, edge)

-- From every status that is not terminal some path of the transition table leads to delivered.
pub ⟶*-delivered : (s : FlashnetOrderStatus) → ¬ (IsTerminal s) → s ⟶* delivered
unfolding has allowed_transitions
⟶*-delivered delivered h = here
⟶*-delivered failed h = absurd (h failed_terminal)
⟶*-delivered expired h = absurd (h expired_terminal)
⟶*-delivered refunded h = absurd (h refunded_terminal)
⟶*-delivered pending_payment h = step {t = processing} (edge refl) (step (edge refl) here)
⟶*-delivered refunding h =
    step {t = paused} (edge refl) (step {t = processing} (edge refl) (step (edge refl) here))
⟶*-delivered paused h = step {t = processing} (edge refl) (step (edge refl) here)
⟶*-delivered awaiting_approval h = step {t = processing} (edge refl) (step (edge refl) here)
⟶*-delivered _ h = step (edge refl) here

abbrev pub event_of : FlashnetOrderStatus → Text
event_of pending_payment = codes ""
event_of processing = codes "order.processing"
event_of confirming = codes "order.confirming"
event_of bridging = codes "order.bridging"
event_of swapping = codes "order.swapping"
event_of awaiting_approval = codes "order.awaiting_approval"
event_of paused = codes "order.paused"
event_of delivering = codes "order.delivering"
event_of delivered = codes "order.completed"
event_of refunding = codes "order.refunding"
event_of refunded = codes "order.refunded"
event_of failed = codes "order.failed"
event_of expired = codes "order.expired"
event_of unfulfilled = codes "order.unfulfilled"

map_event-event_of :
    (s : FlashnetOrderStatus) → s ≢ pending_payment → map_event_to_status (event_of s) ≡ ok (some s)
unfolding map_event_to_status own_member text_eq
map_event-event_of pending_payment h = absurd (h refl)
map_event-event_of _ h = refl

own_member-eq :
    (event : Text) (s : FlashnetOrderStatus) (l : List (Text × FlashnetOrderStatus))
    → All (λ m. (m.0 ≡ event_of m.1) × (m.1 ≢ pending_payment)) l
    → own_member event l ≡ some s
    → (event ≡ event_of s) × (s ≢ pending_payment)
unfolding own_member
own_member-eq event s [] a h = cc
own_member-eq event s ((name, status) ∷ more) ((p, q), a) h =
    ground (arith, text_eq_sound name event, own_member-eq event s more a)

mapping_named : All (λ m. (m.0 ≡ event_of m.1) × (m.1 ≢ pending_payment)) event_mapping
mapping_named = ground arith

own_member-some :
    (event : Text) (s : FlashnetOrderStatus)
    → map_event_to_status event ≡ ok (some s)
    → own_member event event_mapping ≡ some s
unfolding map_event_to_status
own_member-some event s h = ground arith

-- An event is mapped to a given status exactly where it is the event named for that status and the
-- status is not pending payment: each other status has one event.
pub map_event_iff :
    (event : Text) (s : FlashnetOrderStatus)
    → (map_event_to_status event ≡ ok (some s)) ↔ ((event ≡ event_of s) × (s ≢ pending_payment))
map_event_iff event s = (
  λ h. own_member-eq event s event_mapping mapping_named (own_member-some event s h),
  λ h. rw h.0 (map_event-event_of s h.1),
)
