-- ===== src/Engine/Hangup.antt =====
-- src/lib.rs, hanging up: `hangup` with what it starts in the background.
pub mod Taken
pub mod Background
use aria_mobile_core.Base.{
  ℕ, suc, ◌+◌, if◌then◌else◌, Bool, true, false, not, ◌&&◌, String, Option, none, some, is_some,
  List, [], ◌∷◌, ◌++◌, concat,
}
use aria_mobile_core.Base.Dict.{get, remove}
use aria_mobile_core.Types.{
  CallInfo, CallState, CallDirection, EndReason, MobileError, Result, ok, err,
}
use aria_mobile_core.Events.{Event}
use aria_mobile_core.Auth.{current, snapshot}
use aria_mobile_core.Gateway.Routes.{Route}
use aria_mobile_core.Gateway.{primary_route}
use aria_mobile_core.Engine.State.{
  ActiveCallState, Await, DialCells, Engine, OutgoingCalls, PendingOutgoing, Task, emit_ended_on,
  new_events, send_on, set_cells, spawn,
}
use aria_mobile_core.Engine.Calls.{report_auth_rejected, stop_call}
use aria_mobile_core.Engine.Ids.{mark_used, outgoing_client_ref, used}

pub data TakenCall : Type 0 where
  active : ActiveCallState → TakenCall
  ringing : PendingOutgoing → TakenCall
  not_yet_made missing : TakenCall

abbrev pub take_unseen : Engine → String → Engine × TakenCall
take_unseen e call_id =
    if is_some (outgoing_client_ref call_id) && not (is_some (used call_id e.outgoing.used))
    then (record e { outgoing = mark_used e.outgoing call_id true }, not_yet_made)
    else (e, missing)

abbrev pub take_ringing_or : Engine → String → Option PendingOutgoing → Engine × TakenCall
take_ringing_or e call_id (some pending) = (
  record e { outgoing = record (e.outgoing) { ringing = remove call_id e.outgoing.ringing } },
  ringing pending,
)
take_ringing_or e call_id none = take_unseen e call_id

abbrev pub take_active_or : Engine → String → Option ActiveCallState → Engine × TakenCall
take_active_or e call_id (some call) =
    let (e', call') = stop_call (record e { calls = remove call_id e.calls }) call in
    (e', active call')
take_active_or e call_id none = take_ringing_or e call_id (get call_id e.outgoing.ringing)

-- One step with respect to `dial`, which moves a call from one map to the other under both locks.
unfoldable pub take_for_hangup : Engine → String → Engine × TakenCall
unfolding stop_call
take_for_hangup e call_id = take_active_or e call_id (get call_id e.calls)

-- Removes a ringing call, for `dial`.
unfoldable pub take_ringing : Engine → String → Engine × Option PendingOutgoing
take_ringing e call_id = (
  record e { outgoing = record (e.outgoing) { ringing = remove call_id e.outgoing.ringing } },
  get call_id e.outgoing.ringing,
)

-- Of the background request only the start is here; `cancel_at_gateway` is what it does.
unfoldable pub cancel_ringing : Engine → PendingOutgoing → Engine × Result (Unit {0})
cancel_ringing e pending =
    let e1 =
      set_cells (emit_ended_on e pending.events pending.info EndReason.cancelled) pending.dial
        (λ c. record c { cancel = true }) in
    if not pending.dialing
    then (e1, ok tt)
    else if not (is_some (current e1.auth))
    then (
      set_cells e1 pending.dial (λ c. record c { cancel_outcome = some false }),
      err MobileError.authentication_error,
    )
    else (spawn e1 (Task.cancel_call pending.info pending.client_ref pending.dial), ok tt)

-- The event of a call that the app hung up before it made it.
abbrev pub unmade_info : String → CallInfo
unmade_info call_id = record {
  call_id = call_id;
  remote_uri = "";
  remote_name = none;
  state = CallState.ended;
  direction = CallDirection.outbound;
  muted = false;
  on_hold = false;
  duration_secs = 0;
  end_reason = none;
}

abbrev hang_up_active : Engine → String → ActiveCallState → Engine × Result (Unit {0})
hang_up_active e call_id call =
    let e1 = emit_ended_on e call.events call.info EndReason.local_hangup in
    elim call.call_token [
      | none ↦ (e1, ok tt)
      | some call_token ↦
          if not (is_some (current e1.auth))
          then (e1, err MobileError.authentication_error)
          else (spawn e1 (Task.hang_up call.route call_id call_token), ok tt)
    ]

abbrev pub hang_up_taken : String → Engine × TakenCall → Engine × Result (Unit {0})
hang_up_taken call_id (e, active call) = hang_up_active e call_id call
hang_up_taken call_id (e, ringing pending) = cancel_ringing e pending
hang_up_taken call_id (e, not_yet_made) =
    (emit_ended_on (new_events e) e.fresh (unmade_info call_id) EndReason.cancelled, ok tt)
hang_up_taken call_id (e, missing) = (e, err MobileError.invalid_state)

unfoldable pub hangup : Engine → String → Engine × Result (Unit {0})
unfolding take_for_hangup cancel_ringing
hangup e call_id = hang_up_taken call_id (take_for_hangup e call_id)

-- The text of an error, as the source's `thiserror` messages spell it.
abbrev pub error_text : MobileError → String
error_text MobileError.network_error = "Network error"
error_text MobileError.authentication_error = "Authentication error"
error_text MobileError.registration_failed = "Registration failed"
error_text (MobileError.call_failed why) = concat "Call failed: " why
error_text MobileError.media_error = "Media error"
error_text MobileError.invalid_state = "Invalid state"
error_text MobileError.gateway_error = "Gateway error"
error_text MobileError.timeout = "Timeout"
error_text MobileError.invalid_target = "Invalid target"
error_text MobileError.cancelled_error = "Cancelled"
error_text MobileError.transfer_unsupported =
    "Transfer unsupported: the PBX cannot join these two calls"

abbrev why_unconfirmed : MobileError → String
why_unconfirmed MobileError.invalid_state = "the gateway does not know the call"
why_unconfirmed other = error_text other

unfoldable pub unconfirmed_event : String → MobileError → Event
unconfirmed_event call_id last = Event.error "hangup" (
    concat "Call " (
      concat call_id (
        concat " ended here, but the gateway did not confirm the hangup ("
          (concat (why_unconfirmed last) "). The other party may still be connected."))))

-- The attempts of `hang_up_at_gateway`, in order, each with the gateway's answer; the last error is
-- reported when they are used up. The token's generation is read before each request.
unfoldable pub hang_up_attempts :
    Engine → String → MobileError → List (Await (Result (Unit {0}))) → Engine
hang_up_attempts e call_id last [] = send_on e (unconfirmed_event call_id last)
hang_up_attempts e call_id last (request ∷ more) =
    let generation = (snapshot e.auth).1 in
    elim request.answer [
      | ok _ ↦ request.meanwhile e
      | err MobileError.authentication_error ↦ report_auth_rejected (request.meanwhile e) generation
      | err x ↦ hang_up_attempts (request.meanwhile e) call_id x more
    ]

unfoldable pub hang_up_at_gateway :
    Engine → String → (first second : Await (Result (Unit {0}))) → Engine
unfolding hang_up_attempts
hang_up_at_gateway e call_id first second =
    hang_up_attempts e call_id MobileError.network_error (first ∷ second ∷ [])

-- One turn of `cancel_at_gateway`: the answer of the cancel request, whether `POST /v1/calls` has
-- returned by then, and, where it waits, whether it returned during the wait.
pub record CancelTurn : Type 0 where
  pub reply : Await (Result Bool)
  pub pause : Await Bool

-- The route that the call was last sent on, else the gateway's first.
abbrev pub route_of : Engine → ℕ → Route
route_of e dial = elim (e.dials dial).route [ none ↦ primary_route e.gateway | some r ↦ r ]

abbrev is_accepted : Option Bool → Bool
is_accepted (some true) = true
is_accepted _ = false

-- The turns of the loop with the delays that are left: whether the gateway accepted the cancel, and
-- the routes that the requests went to.
unfoldable pub cancel_turns : Engine → ℕ → List ℕ → (ℕ → CancelTurn) → Engine × Bool × List Route
cancel_turns e dial [] turn =
    let route = route_of e dial in
    let generation = (snapshot e.auth).1 in
    let e1 = (turn 0).reply.meanwhile e in
    elim (turn 0).reply.answer [
      | ok accepted ↦ (e1, accepted, route ∷ [])
      | err MobileError.authentication_error ↦
          (report_auth_rejected e1 generation, false, route ∷ [])
      | err x ↦ (e1, false, route ∷ [])
    ]
cancel_turns e dial (delay ∷ delays) turn =
    let route = route_of e dial in
    let generation = (snapshot e.auth).1 in
    let e1 = (turn 0).reply.meanwhile e in
    let retried = cancel_turns ((turn 0).pause.meanwhile e1) dial delays (λ n. turn (suc n)) in
    elim (turn 0).reply.answer [
      | ok true ↦ (e1, true, route ∷ [])
      | ok false ↦
          if (e1.dials dial).request_done
          then (e1, false, route ∷ [])
          else if (turn 0).pause.answer
          then ((turn 0).pause.meanwhile e1, false, route ∷ [])
          else (retried.0, retried.1, route ∷ retried.2)
      | err MobileError.authentication_error ↦
          (report_auth_rejected e1 generation, false, route ∷ [])
      | err x ↦ (e1, false, route ∷ [])
    ]

-- The delays between cancels that get 404, in milliseconds.
abbrev pub cancel_retry_delays : List ℕ
cancel_retry_delays = 100 ∷ 200 ∷ 400 ∷ 800 ∷ []

unfoldable pub cancel_at_gateway : Engine → ℕ → (ℕ → CancelTurn) → Engine × Bool × List Route
unfolding cancel_turns
cancel_at_gateway e dial turn = cancel_turns e dial cancel_retry_delays turn

-- The background task of `cancel_ringing`: the outcome goes to the call's `cancel_outcome`.
unfoldable pub cancel_task : Engine → ℕ → (ℕ → CancelTurn) → Engine
unfolding cancel_at_gateway
cancel_task e dial turn =
    let (e', accepted, asked) = cancel_at_gateway e dial turn in
    set_cells e' dial (λ c. record c { cancel_outcome = some accepted })

-- The background task of `hang_up_if_answered`, once `answered` has given a call token and its route
-- (or nothing): `outcome` is the wait for the cancel's outcome, which ends by its timeout too. What it
-- returns beside the engine is whether the call was hung up at the gateway.
unfoldable pub hang_up_if_answered :
    Engine
    → ℕ
    → Await (Option (String × Route))
    → Await (Unit {0})
    → String
    → (first second : Await (Result (Unit {0}))) → Engine × Bool
unfolding hang_up_at_gateway
hang_up_if_answered e dial answered outcome call_id first second =
    let e1 = answered.meanwhile e in
    let e2 = outcome.meanwhile e1 in
    elim answered.answer [
      | none ↦ (e1, false)
      | some p ↦
          if is_accepted (e2.dials dial).cancel_outcome
          then (e2, false)
          else (hang_up_at_gateway e2 call_id first second, true)
    ]
