-- ===== src/Swap/StateMachine.antt =====
-- src/swap/swap-state-machine.ts.
pub mod Graph
use spark_ln_address.Prelude.{
  List, [], ◌∷◌, Option, none, some, Result, ok, err, Text, codes, text_eq, mem_text, if◌then◌else◌,
}
use spark_ln_address.Swap.Status.{
  FlashnetOrderStatus, pending_payment, processing, confirming, bridging, swapping,
  awaiting_approval, paused, delivering, delivered, refunding, refunded, failed, expired,
  unfulfilled, status_eq, has,
}

unfoldable pub allowed_transitions : FlashnetOrderStatus → List FlashnetOrderStatus
allowed_transitions pending_payment = processing ∷ []
allowed_transitions processing =
    confirming ∷ bridging ∷ swapping ∷ awaiting_approval ∷ paused ∷ refunding ∷ delivering
    ∷ delivered ∷ failed ∷ expired ∷ unfulfilled ∷ refunded ∷ []
allowed_transitions confirming =
    bridging ∷ swapping ∷ refunding ∷ paused ∷ delivering ∷ delivered ∷ failed ∷ expired ∷ refunded
    ∷ []
allowed_transitions bridging = swapping ∷ paused ∷ delivering ∷ delivered ∷ failed ∷ refunded ∷ []
allowed_transitions swapping =
    awaiting_approval ∷ paused ∷ refunding ∷ bridging ∷ delivering ∷ delivered ∷ failed ∷ refunded
    ∷ []
allowed_transitions awaiting_approval =
    processing ∷ confirming ∷ swapping ∷ refunding ∷ paused ∷ failed ∷ refunded ∷ []
allowed_transitions paused = processing ∷ failed ∷ []
allowed_transitions refunding = paused ∷ refunded ∷ failed ∷ []
allowed_transitions delivering =
    confirming ∷ paused ∷ refunding ∷ delivered ∷ failed ∷ refunded ∷ []
allowed_transitions unfulfilled = confirming ∷ bridging ∷ swapping ∷ delivering ∷ delivered ∷ []
allowed_transitions delivered = []
allowed_transitions failed = []
allowed_transitions expired = []
allowed_transitions refunded = []

pub data TransitionError : Type 0 where
  unknown_state : TransitionError
  illegal_transition :
      FlashnetOrderStatus → FlashnetOrderStatus → List FlashnetOrderStatus → TransitionError
  unknown_event : Text → TransitionError

-- A status read from the database: `none` is NULL, which the table has no row for. The column
-- holds no other text, since the service writes the statuses alone.
abbrev pub StoredStatus : Type 0
StoredStatus = Option FlashnetOrderStatus

unfoldable pub validate_transition :
    StoredStatus → FlashnetOrderStatus → Result TransitionError FlashnetOrderStatus
validate_transition none next = err unknown_state
validate_transition (some current) next =
    let allowed = allowed_transitions current in
    if has allowed next then ok next else err (illegal_transition current next allowed)

pub data TransitionDecision : Type 0 where
  apply : FlashnetOrderStatus → TransitionDecision
  noop : TransitionDecision
  skip : List FlashnetOrderStatus → TransitionDecision

-- The result of `mapping[event]`: `none` is a member that the object inherits from
-- `Object.prototype`, which is truthy and equal to no status.
abbrev pub MappedStatus : Type 0
MappedStatus = Option FlashnetOrderStatus

unfoldable pub classify_transition :
    StoredStatus → MappedStatus → Result TransitionError TransitionDecision
classify_transition none next = err unknown_state
classify_transition (some current) none = ok (skip (allowed_transitions current))
classify_transition (some current) (some next) =
    if status_eq current next
    then ok noop
    else if has (allowed_transitions current) next
    then ok (apply next)
    else ok (skip (allowed_transitions current))

abbrev pub event_mapping : List (Text × FlashnetOrderStatus)
event_mapping =
    (codes "order.paused", paused)
    ∷ (codes "order.expired", expired)
    ∷ (codes "order.processing", processing)
    ∷ (codes "order.confirming", confirming)
    ∷ (codes "order.bridging", bridging)
    ∷ (codes "order.swapping", swapping)
    ∷ (codes "order.awaiting_approval", awaiting_approval)
    ∷ (codes "order.refunding", refunding)
    ∷ (codes "order.delivering", delivering)
    ∷ (codes "order.completed", delivered)
    ∷ (codes "order.failed", failed)
    ∷ (codes "order.unfulfilled", unfulfilled)
    ∷ (codes "order.refunded", refunded)
    ∷ []

-- The property names that every object literal inherits.
abbrev pub inherited_members : List Text
inherited_members =
    codes "constructor"
    ∷ codes "__defineGetter__"
    ∷ codes "__defineSetter__"
    ∷ codes "hasOwnProperty"
    ∷ codes "__lookupGetter__"
    ∷ codes "__lookupSetter__"
    ∷ codes "isPrototypeOf"
    ∷ codes "propertyIsEnumerable"
    ∷ codes "toString"
    ∷ codes "valueOf"
    ∷ codes "__proto__"
    ∷ codes "toLocaleString"
    ∷ []

unfoldable pub own_member : Text → List (Text × FlashnetOrderStatus) → Option FlashnetOrderStatus
own_member event [] = none
own_member event ((name, status) ∷ more) =
    if text_eq name event then some status else own_member event more

unfoldable pub map_event_to_status : Text → Result TransitionError MappedStatus
map_event_to_status event = elim (own_member event event_mapping) [
  | some status ↦ ok (some status)
  | none ↦ if mem_text event inherited_members then ok none else err (unknown_event event)
]
