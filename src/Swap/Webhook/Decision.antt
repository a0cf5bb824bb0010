-- ===== src/Swap/Webhook/Decision.antt =====
-- src/swap/swap.service.ts, the part of `applyWebhookEvent` that classifies the transition.
use spark_ln_address.Prelude.{
  ◌≡◌, refl, sym, ◌⊎◌, inl, inr, Bool, true, false, not, ◌&&◌, Option, none, some, Result, ok, List,
  [], ◌∷◌, if◌then◌else◌, arith,
}
use mathlib.Core.Path.{subst}
use spark_ln_address.Swap.Status.{
  FlashnetOrderStatus, pending_payment, processing, delivered, refunded, failed, expired, has,
  status_eq, status_eq_sound,
}
use spark_ln_address.Swap.StateMachine.{
  StoredStatus, MappedStatus, TransitionError, TransitionDecision, apply, classify_transition,
  allowed_transitions,
}
use spark_ln_address.Swap.StateMachine.Graph.{◌⟶◌, edge}

abbrev pub terminal : List FlashnetOrderStatus
terminal = delivered ∷ refunded ∷ failed ∷ expired ∷ []

-- `terminal.includes(status)`.
abbrev pub is_terminal : Option FlashnetOrderStatus → Bool
is_terminal none = false
is_terminal (some s) = has terminal s

-- The first event may be any one of an order that is already under way.
unfoldable pub current_status : StoredStatus → FlashnetOrderStatus → StoredStatus
current_status none next = none
current_status (some s) next =
    if status_eq s pending_payment && not (status_eq next processing)
    then some processing
    else some s

abbrev past_pending : StoredStatus → StoredStatus
past_pending none = none
past_pending (some s) = if status_eq s pending_payment then some processing else some s

unfoldable pub decide : StoredStatus → MappedStatus → Result TransitionError TransitionDecision
decide stored none = classify_transition (past_pending stored) none
decide stored (some next) =
    let current = current_status stored next in
    if not (is_terminal current) && has terminal next
    then ok (apply next)
    else classify_transition current (some next)

-- What a decision to apply may do to a stored status.
infix 40 ◌⟿◌
pub data ◌⟿◌ : StoredStatus → FlashnetOrderStatus → Type 0 where
  finish :
      {s : StoredStatus} {next : FlashnetOrderStatus}
      → is_terminal s ≡ false
      → has terminal next ≡ true
      → s ⟿ next
  move : {s next : FlashnetOrderStatus} → s ⟶ next → (some s) ⟿ next
  begin : {next : FlashnetOrderStatus} → processing ⟶ next → (some pending_payment) ⟿ next

abbrev Moves : StoredStatus → FlashnetOrderStatus → Type 0
Moves none next = (has terminal next ≡ true)
Moves (some s) next =
    ((has terminal s ≡ false) × (has terminal next ≡ true))
    ⊎ ((has (allowed_transitions s) next ≡ true)
        ⊎ ((s ≡ pending_payment) × (has (allowed_transitions processing) next ≡ true)))

pending_not_terminal : has terminal pending_payment ≡ false
unfolding has
pending_not_terminal = refl

decide-Moves :
    (stored : StoredStatus) (attempted : MappedStatus) (next : FlashnetOrderStatus)
    → decide stored attempted ≡ ok (apply next)
    → (attempted ≡ some next) × Moves stored next
unfolding decide current_status classify_transition
decide-Moves none none next h = cc
decide-Moves (some s) none next h = ground arith
decide-Moves none (some n) next h = ground arith
decide-Moves (some s) (some n) next h =
    ground (arith, status_eq_sound s pending_payment, pending_not_terminal)

⟿_of_Moves :
    (stored : StoredStatus) (next : FlashnetOrderStatus) → Moves stored next → stored ⟿ next
⟿_of_Moves none next h = finish refl h
⟿_of_Moves (some s) next (inl (p, q)) = finish p q
⟿_of_Moves (some s) next (inr (inl e)) = move (edge e)
⟿_of_Moves (some s) next (inr (inr (p, e))) = subst (λ t. (some t) ⟿ next) (sym p) (begin (edge e))

-- Where the handler decides to apply a status, it is the status of the event, and the stored
-- status moves to it: along an edge of the transition table, from a non-terminal status to a
-- terminal one, or from pending payment along an edge of processing.
pub decide-apply :
    (stored : StoredStatus) (attempted : MappedStatus) (next : FlashnetOrderStatus)
    → decide stored attempted ≡ ok (apply next)
    → (attempted ≡ some next) × (stored ⟿ next)
decide-apply stored attempted next h =
    let (same, moves) = decide-Moves stored attempted next h in (same, ⟿_of_Moves stored next moves)

terminal_no_edges :
    (s t : FlashnetOrderStatus) → has terminal s ≡ true → has (allowed_transitions s) t ≡ false
unfolding has allowed_transitions
terminal_no_edges delivered t h = refl
terminal_no_edges refunded t h = refl
terminal_no_edges failed t h = refl
terminal_no_edges expired t h = refl
terminal_no_edges _ t h = cc

-- From a terminal stored status there is no move to any status.
pub terminal-⟿ :
    {stored : StoredStatus} (s next : FlashnetOrderStatus)
    → has terminal s ≡ true
    → stored ≡ some s
    → ¬ (stored ⟿ next)
terminal-⟿ s next h e (finish p q) = ground arith
terminal-⟿ s next h e (move {s = s'} (edge p)) = ground (arith, terminal_no_edges s' next)
terminal-⟿ s next h e (begin (edge p)) = ground (arith, pending_not_terminal)
