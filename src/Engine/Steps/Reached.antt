-- ===== src/Engine/Steps/Reached.antt =====
-- About src/lib.rs: what holds of the engine however the steps of its threads interleave.
use aria_mobile_core.Base.{
  ℕ, ◌≡◌, refl, String, Option, none, some, inl, inr, arith, Bool-cases, Option-cases,
}
use aria_mobile_core.Base.Dict.{get}
use aria_mobile_core.Types.{GatewayConfig, CallStatusResponse, EndReason, from_gateway}
use aria_mobile_core.Engine.State.{Engine, new_engine, ActiveCallState, PendingOutgoing}
use aria_mobile_core.Engine.Calls.{end_call_locally, report_auth_rejected}
use aria_mobile_core.Engine.Controls.{last?, without_last, check_remote_hangup, set_gateway_token}
use aria_mobile_core.Engine.Controls.Active.{
  OneActive, set_mute-OneActive, set_hold-OneActive, swap_calls-OneActive, remove-OneActive,
  end_call_locally-OneActive,
}
use aria_mobile_core.Engine.Hangup.{
  TakenCall, take_for_hangup, cancel_ringing, take_active_or, take_ringing_or, hang_up_taken,
  hangup,
}
use aria_mobile_core.Engine.Dial.Connect.{
  finish_dial-OneActive, fail_ringing-calls, reserve_outgoing-calls,
}
use aria_mobile_core.Engine.Accept.{release_accept}
use aria_mobile_core.Engine.Accept.Connect.{
  reserve_accept-calls, begin_answer-calls, after_accept-OneActive, watch_incoming-calls,
}
use aria_mobile_core.Engine.Incoming.{take_pending_incoming, end_rejected}
use aria_mobile_core.Engine.Transfer.{Leg, end_transferred_leg}
use aria_mobile_core.Engine.Polls.{is_gone, call_status, watch_status}
use aria_mobile_core.Engine.Steps.{Step, Reach, IsWellFormed}
use aria_mobile_core.Engine.Steps.Kept.{
  Kept, set_mute-Kept, set_hold-Kept, swap_calls-Kept, fail_ringing-Kept, end_rejected-Kept,
  end_transferred_leg-Kept, report_auth_rejected-Kept, end_call_locally-Kept, finish_dial-Kept,
  reserve_accept-Kept, begin_answer-Kept, after_accept-Kept, watch_status-Kept, watch_incoming-Kept,
  hangup-used, hangup-remote_ended, reserve_outgoing-used, reserve_outgoing-remote_ended,
  call_status-used, call_status-remote_ended, check_remote_hangup-used,
  check_remote_hangup-remote_ended,
}

Kept-IsWellFormed :
    (e e' : Engine) → Kept e e' → OneActive e'.calls → IsWellFormed e → IsWellFormed e'
Kept-IsWellFormed e e' (u, r) a h = record {
  active = a;
  used_bound = rw u h.used_bound;
  ended_bound = rw r h.ended_bound;
}

-- What a hangup does after the call is taken leaves the others.
pub hang_up_taken-calls :
    (id : String) (p : Engine × TakenCall) → (hang_up_taken id p).0.calls ≡ p.0.calls
unfolding cancel_ringing
hang_up_taken-calls id (e, TakenCall.active call) = ground arith
hang_up_taken-calls id (e, TakenCall.ringing pending) = ground arith
hang_up_taken-calls id (e, TakenCall.not_yet_made) = refl
hang_up_taken-calls id (e, TakenCall.missing) = refl

pub take_ringing_or-calls :
    (e : Engine) (id : String) (p : Option PendingOutgoing)
    → (take_ringing_or e id p).0.calls ≡ e.calls
take_ringing_or-calls e id none = ground arith
take_ringing_or-calls e id (some p) = refl

hangup-OneActive : (e : Engine) (id : String) → OneActive e.calls → OneActive (hangup e id).0.calls
unfolding hangup take_for_hangup
hangup-OneActive e id v =
    rw (hang_up_taken-calls id (take_for_hangup e id)) (by_call (get id e.calls))
  where
    by_call : (o : Option ActiveCallState) → OneActive (take_active_or e id o).0.calls
    by_call (some c) = remove-OneActive id e.calls v
    by_call none = rw (take_ringing_or-calls e id (get id e.outgoing.ringing)) v

call_status-OneActive :
    (e : Engine) (streak : ℕ) (id : String) (s : CallStatusResponse)
    → OneActive e.calls
    → OneActive (call_status e streak id s).0.calls
unfolding call_status
call_status-OneActive e streak id s v =
    let reason = from_gateway s.reason EndReason.remote_hangup in
    elim (Bool-cases (is_gone streak s.status).1) [
      | inr t ↦ rw t v
      | inl t ↦ elim (Bool-cases (end_call_locally e id reason).1) [
        | inl u ↦ rw (t, u) (end_call_locally-OneActive e id reason v)
        | inr u ↦ rw (t, u) (end_call_locally-OneActive e id reason v)
      ]
    ]

pub watch_status-calls :
    (e : Engine) (streak : ℕ) (t : String) (s : CallStatusResponse)
    → (watch_status e streak t s).0.calls ≡ e.calls
unfolding watch_status
watch_status-calls e streak t s = ground arith

check_remote_hangup-OneActive :
    (e : Engine) → OneActive e.calls → OneActive (check_remote_hangup e).0.calls
unfolding check_remote_hangup
check_remote_hangup-OneActive e v =
    let e' : Engine = record e { remote_ended = without_last e.remote_ended } in
    elim (Option-cases (last? e.remote_ended)) [
      | inl n ↦ rw (check_remote_hangup, n) v
      | inr (id, n) ↦
          rw (check_remote_hangup, n) (end_call_locally-OneActive e' id EndReason.remote_hangup v)
    ]

pub end_rejected-calls :
    (e : Engine) (t : String) → (end_rejected (take_pending_incoming e t)).calls ≡ e.calls
unfolding take_pending_incoming
end_rejected-calls e t = ground arith

pub report_auth_rejected-calls : (e : Engine) (g : ℕ) → (report_auth_rejected e g).calls ≡ e.calls
unfolding report_auth_rejected
report_auth_rejected-calls e g = ground arith

end_transferred_leg-OneActive :
    (e : Engine) (leg : Leg) → OneActive e.calls → OneActive (end_transferred_leg e leg).calls
unfolding end_transferred_leg
end_transferred_leg-OneActive e leg v =
    let after = end_call_locally-OneActive e leg.call_id EndReason.transferred v in
    elim (Bool-cases (end_call_locally e leg.call_id EndReason.transferred).1) [
      | inl t ↦ rw t after
      | inr t ↦ rw t after
    ]

pub Step-IsWellFormed : (e e' : Engine) → Step e e' → IsWellFormed e → IsWellFormed e'
unfolding set_gateway_token release_accept
Step-IsWellFormed _ _ (Step.muting e id b) h =
    Kept-IsWellFormed e _ (set_mute-Kept e id b) (set_mute-OneActive e id b h.active) h
Step-IsWellFormed _ _ (Step.holding e id b) h =
    Kept-IsWellFormed e _ (set_hold-Kept e id b) (set_hold-OneActive e id b h.active) h
Step-IsWellFormed _ _ (Step.swapping e a b) h =
    Kept-IsWellFormed e _ (swap_calls-Kept e a b) (swap_calls-OneActive e a b h.active) h
Step-IsWellFormed _ _ (Step.hanging_up e id) h = record {
  active = hangup-OneActive e id h.active;
  used_bound = hangup-used e id h.used_bound;
  ended_bound = rw (hangup-remote_ended e id) h.ended_bound;
}
Step-IsWellFormed _ _ (Step.reserving e id uri) h = record {
  active = rw (reserve_outgoing-calls e id uri) h.active;
  used_bound = reserve_outgoing-used e id uri h.used_bound;
  ended_bound = rw (reserve_outgoing-remote_ended e id uri) h.ended_bound;
}
Step-IsWellFormed _ _ (Step.sending e id) h = record {
  active = h.active;
  used_bound = h.used_bound;
  ended_bound = h.ended_bound;
}
Step-IsWellFormed _ _ (Step.trying e dial r) h = record {
  active = h.active;
  used_bound = h.used_bound;
  ended_bound = h.ended_bound;
}
Step-IsWellFormed _ _ (Step.dialed lib e id r m request i f u) h =
    Kept-IsWellFormed e _ (finish_dial-Kept lib e id r m request)
      (finish_dial-OneActive lib e id r m request i f h.active) h
Step-IsWellFormed _ _ (Step.not_dialed e id x) h =
    Kept-IsWellFormed e _ (fail_ringing-Kept e id x) (rw (fail_ringing-calls e id x) h.active) h
Step-IsWellFormed _ _ (Step.accepting e t) h =
    Kept-IsWellFormed e _ (reserve_accept-Kept e t) (rw (reserve_accept-calls e t) h.active) h
Step-IsWellFormed _ _ (Step.answering e t) h =
    Kept-IsWellFormed e _ (begin_answer-Kept e t) (rw (begin_answer-calls e t) h.active) h
Step-IsWellFormed _ _ (Step.answered e o r m cell reply f u) h =
    Kept-IsWellFormed e _ (after_accept-Kept e o r m cell reply)
      (after_accept-OneActive e o r m cell reply f h.active) h
Step-IsWellFormed _ _ (Step.accepted e t) h = record {
  active = h.active;
  used_bound = h.used_bound;
  ended_bound = h.ended_bound;
}
Step-IsWellFormed _ _ (Step.polled e streak id s) h = record {
  active = call_status-OneActive e streak id s h.active;
  used_bound = rw (call_status-used e streak id s) h.used_bound;
  ended_bound = call_status-remote_ended e streak id s h.ended_bound;
}
Step-IsWellFormed _ _ (Step.watched e streak t s) h =
    Kept-IsWellFormed e _ (watch_status-Kept e streak t s)
      (rw (watch_status-calls e streak t s) h.active) h
Step-IsWellFormed _ _ (Step.pushed e o r b) h =
    Kept-IsWellFormed e _ (watch_incoming-Kept e o r b) (rw (watch_incoming-calls e o r b) h.active)
      h
Step-IsWellFormed _ _ (Step.rejected e t) h =
    Kept-IsWellFormed e _ (end_rejected-Kept e t) (rw (end_rejected-calls e t) h.active) h
Step-IsWellFormed _ _ (Step.transferred e id) h =
    Kept-IsWellFormed e _ (end_call_locally-Kept e id EndReason.transferred)
      (end_call_locally-OneActive e id EndReason.transferred h.active) h
Step-IsWellFormed _ _ (Step.left_up e leg) h =
    Kept-IsWellFormed e _ (end_transferred_leg-Kept e leg)
      (end_transferred_leg-OneActive e leg h.active) h
Step-IsWellFormed _ _ (Step.unauthorized e g) h =
    Kept-IsWellFormed e _ (report_auth_rejected-Kept e g)
      (rw (report_auth_rejected-calls e g) h.active) h
Step-IsWellFormed _ _ (Step.checking e) h = record {
  active = check_remote_hangup-OneActive e h.active;
  used_bound = rw (check_remote_hangup-used e) h.used_bound;
  ended_bound = omega (arith, check_remote_hangup-remote_ended e, h.ended_bound);
}
Step-IsWellFormed _ _ (Step.signing_in e t) h = record {
  active = h.active;
  used_bound = h.used_bound;
  ended_bound = h.ended_bound;
}

pub Reach-IsWellFormed : (e e' : Engine) → Reach e e' → IsWellFormed e → IsWellFormed e'
Reach-IsWellFormed _ _ (Reach.here e) h = h
Reach-IsWellFormed _ _ (Reach.next {e} {e1} {e2} s r) h =
    Reach-IsWellFormed e1 e2 r (Step-IsWellFormed e e1 s h)

-- Every engine that is reached from a new one, by steps of any threads in any order, has at most one
-- call off hold and every call's session held and muted as reported, remembers at most 256 used ids,
-- and keeps at most 16 remote hangups for the app.
pub new_engine-IsWellFormed :
    (config : GatewayConfig) (http : ℕ) (e : Engine)
    → Reach (new_engine config http) e
    → IsWellFormed e
unfolding new_engine get
new_engine-IsWellFormed config http e r = Reach-IsWellFormed (new_engine config http) e r (record {
  active = record { one = λ j k c d p q s t. absurd_get p; agrees = λ j c p. absurd_get p };
  used_bound = omega arith;
  ended_bound = omega arith;
})
  where
    absurd_get : {A : Type 0} {c : ActiveCallState} → none ≡ some c → A
    absurd_get p = cc
