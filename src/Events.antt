-- ===== src/Events.antt =====
-- src/events.rs: the queue of callbacks, and the guard that lets nothing follow a call's `Ended`.
-- A `CallEvents` is shared by pointers, so it is a cell of a store: `ended c` is its only field.
pub mod Order
pub mod Once
use aria_mobile_core.Base.{
  ℕ, ◌==◌, if◌then◌else◌, update, Bool, true, false, String, Option, none, some, List, [], ◌∷◌,
  ◌++◌,
}
use aria_mobile_core.Types.{CallInfo, CallOffer, CallState, EndReason, is_ended}

pub data Event : Type 0 where
  call_state : CallInfo → Event
  incoming : CallOffer → Event
  registration : String → String → Option String → Event
  auth_required : Event
  error : String → String → Event

-- The calls of a `MobileEventHandler`.
pub data Callback : Type 0 where
  on_call_state_changed : CallInfo → Callback
  on_incoming_call : CallOffer → Callback
  on_registration_changed : String → String → Option String → Callback
  on_auth_required : Callback
  on_error : String → String → Callback

-- `pending` is the channel, oldest first; a handler is known by a number; `delivered` is what the
-- dispatch thread has called so far, oldest first.
pub record Dispatcher : Type 0 where
  pub handler : Option ℕ
  pub pending : List Event
  pub delivered : List (ℕ × Callback)

unfoldable pub new_dispatcher : Dispatcher
new_dispatcher = record { handler = none; pending = []; delivered = [] }

unfoldable pub set_handler : Dispatcher → Option ℕ → Dispatcher
set_handler d h = record d { handler = h }

unfoldable pub send : Dispatcher → Event → Dispatcher
send d e = record d { pending = d.pending ++ e ∷ [] }

abbrev pub callback : Event → Callback
callback (call_state info) = on_call_state_changed info
callback (incoming offer) = on_incoming_call offer
callback (registration device status e) = on_registration_changed device status e
callback auth_required = on_auth_required
callback (error context message) = on_error context message

-- The calls that one event makes: none without a handler. A panic of the callback is caught.
unfoldable pub deliver : Option ℕ → Event → List (ℕ × Callback)
deliver none e = []
deliver (some h) e = (h, callback e) ∷ []

-- One turn of the dispatch thread.
unfoldable pub dispatch_next : Dispatcher → Dispatcher
unfolding deliver
dispatch_next d = elim d.pending [
  | [] ↦ d
  | e ∷ rest ↦ record d { pending = rest; delivered = d.delivered ++ deliver d.handler e }
]

-- The store of `CallEvents` cells, beside the dispatcher that they queue to.
pub record Outbox : Type 0 where
  pub dispatcher : Dispatcher
  pub ended : ℕ → Bool

-- What is queued for `info`: a reason stays on an `Ended` only.
abbrev pub queued : CallInfo → CallInfo
queued info = if is_ended info.state then info else record info { end_reason = none }

abbrev pub queue_info : Outbox → ℕ → CallInfo → Outbox
queue_info o cell info = record {
  dispatcher = record (o.dispatcher) {
    pending = o.dispatcher.pending ++ call_state (queued info) ∷ [];
  };
  ended = update o.ended cell (is_ended info.state);
}

-- `before` runs under the cell's lock, on the state `S` that holds the outbox.
abbrev pub emit_after {ℓ} :
    {S : Type ℓ} → (S → Outbox) → (S → Outbox → S) → S → ℕ → CallInfo → (S → S) → S × Bool
emit_after outbox put s cell info before =
    if (outbox s).ended cell
    then (s, false)
    else (put (before s) (queue_info (outbox (before s)) cell info), true)

unfoldable pub emit : Outbox → ℕ → CallInfo → Outbox × Bool
emit o cell info = emit_after (λ o. o) (λ o o'. o') o cell info (λ o. o)

unfoldable pub emit_ended : Outbox → ℕ → CallInfo → EndReason → Outbox × Bool
unfolding emit
emit_ended o cell info reason =
    emit o cell (record info { state = CallState.ended; end_reason = some reason })
