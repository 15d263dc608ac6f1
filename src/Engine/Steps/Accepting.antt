-- ===== src/Engine/Steps/Accepting.antt =====
-- About src/lib.rs: the steps that neither begin nor end an accept leave the set of accepts, `accepting`.
use aria_mobile_core.Base.{ℕ, ◌≡◌, Bool, String, Option, arith}
use aria_mobile_core.Types.{CallOffer, CallStatusResponse, EndReason, MobileError, err}
use aria_mobile_core.Gateway.Routes.{Route}
use aria_mobile_core.Media.{MobileMediaSession, MediaLib}
use aria_mobile_core.Engine.State.{Engine}
use aria_mobile_core.Engine.Controls.{set_mute, set_hold, swap_calls, check_remote_hangup}
use aria_mobile_core.Engine.Calls.{
  end_call_locally, report_auth_rejected, hold_others, apply_hold, start_media,
}
use aria_mobile_core.Engine.Hangup.{take_for_hangup, cancel_ringing, hangup}
use aria_mobile_core.Engine.Outgoing.{ReservedOutgoing, reserve_outgoing}
use aria_mobile_core.Engine.Dial.{
  Select, MakeCallAnswer, fail_ringing, connect_outgoing, finish_dial,
}
use aria_mobile_core.Engine.Incoming.{take_pending_incoming, end_rejected, watch_incoming}
use aria_mobile_core.Engine.Accept.{
  begin_answer, leave_pending, connect_incoming, without_token, abandon_answer, refuse_answer,
}
use aria_mobile_core.Engine.Transfer.{Leg, end_transferred_leg}
use aria_mobile_core.Engine.Polls.{call_status, watch_status}
use aria_mobile_core.Engine.Outgoing.Reserve.{live}

pub set_mute-accepting :
    (e : Engine) (id : String) (b : Bool) → (set_mute e id b).0.accepting ≡ e.accepting
unfolding set_mute
set_mute-accepting e id b = ground arith

pub set_hold-accepting :
    (e : Engine) (id : String) (b : Bool) → (set_hold e id b).0.accepting ≡ e.accepting
unfolding set_hold hold_others
set_hold-accepting e id b = ground arith

pub swap_calls-accepting :
    (e : Engine) (a h : String) → (swap_calls e a h).0.accepting ≡ e.accepting
unfolding swap_calls hold_others apply_hold
swap_calls-accepting e a h = ground arith

pub fail_ringing-accepting :
    (e : Engine) (id : String) (x : MobileError) → (fail_ringing e id x).0.accepting ≡ e.accepting
unfolding fail_ringing
fail_ringing-accepting e id x = ground arith

pub finish_dial-accepting :
    (lib : MediaLib) (e : Engine) (id : String) (r : ReservedOutgoing)
    (m : Option MobileMediaSession) (request : Select MakeCallAnswer)
    → (finish_dial lib e id r m request).0.accepting ≡ e.accepting
unfolding finish_dial fail_ringing connect_outgoing start_media hold_others
finish_dial-accepting lib e id r m request = ground arith

pub begin_answer-accepting :
    (e : Engine) (t : String) → (begin_answer e t).0.accepting ≡ e.accepting
unfolding begin_answer
begin_answer-accepting e t = ground arith

pub abandon_answer-accepting :
    (e : Engine) (o : CallOffer) (r : Route) (m : Option MobileMediaSession) (cell : ℕ)
    (x : MobileError)
    → (abandon_answer e o r m cell x).0.accepting ≡ e.accepting
unfolding abandon_answer watch_incoming
abandon_answer-accepting e o r m cell x = ground arith

pub refuse_answer-accepting :
    (e : Engine) (o : CallOffer) (m : Option MobileMediaSession) (x : MobileError)
    → (refuse_answer e o m x).0.accepting ≡ e.accepting
unfolding refuse_answer
refuse_answer-accepting e o m x = ground arith

pub watch_incoming-accepting :
    (e : Engine) (o : CallOffer) (r : Route) (b : Bool)
    → (watch_incoming e o r b).0.accepting ≡ e.accepting
unfolding watch_incoming
watch_incoming-accepting e o r b = ground arith

pub watch_status-accepting :
    (e : Engine) (streak : ℕ) (t : String) (s : CallStatusResponse)
    → (watch_status e streak t s).0.accepting ≡ e.accepting
unfolding watch_status
watch_status-accepting e streak t s = ground arith

pub end_call_locally-accepting :
    (e : Engine) (id : String) (x : EndReason) → (end_call_locally e id x).0.accepting ≡ e.accepting
unfolding end_call_locally
end_call_locally-accepting e id x = ground arith

pub end_rejected-accepting :
    (e : Engine) (t : String) → (end_rejected (take_pending_incoming e t)).accepting ≡ e.accepting
unfolding take_pending_incoming
end_rejected-accepting e t = ground arith

pub end_transferred_leg-accepting :
    (e : Engine) (leg : Leg) → (end_transferred_leg e leg).accepting ≡ e.accepting
unfolding end_transferred_leg end_call_locally
end_transferred_leg-accepting e leg = ground arith

pub report_auth_rejected-accepting :
    (e : Engine) (g : ℕ) → (report_auth_rejected e g).accepting ≡ e.accepting
unfolding report_auth_rejected
report_auth_rejected-accepting e g = ground arith

pub call_status-accepting :
    (e : Engine) (streak : ℕ) (id : String) (s : CallStatusResponse)
    → (call_status e streak id s).0.accepting ≡ e.accepting
unfolding call_status end_call_locally
call_status-accepting e streak id s = ground arith

pub check_remote_hangup-accepting : (e : Engine) → (check_remote_hangup e).0.accepting ≡ e.accepting
unfolding check_remote_hangup end_call_locally
check_remote_hangup-accepting e = ground arith

pub hangup-accepting : (e : Engine) (id : String) → (hangup e id).0.accepting ≡ e.accepting
unfolding hangup take_for_hangup cancel_ringing
hangup-accepting e id = ground arith

-- A refused call changes none of what is counted.
pub reserve_outgoing-refused :
    (e : Engine) (id uri : String) (x : MobileError)
    → (reserve_outgoing e id uri).1 ≡ err x
    → (live (reserve_outgoing e id uri).0 ≡ live e)
unfolding reserve_outgoing
reserve_outgoing-refused e id uri x h = ground arith

-- An accept that connects gives its reservation up.
pub connect_incoming-accepting :
    (e : Engine) (o : CallOffer) (r : Route) (m : Option MobileMediaSession) (cell : ℕ)
    → (connect_incoming e o r m cell).0.accepting ≡ without_token o.call_token e.accepting
unfolding connect_incoming leave_pending hold_others start_media take_pending_incoming
connect_incoming-accepting e o r m cell = ground arith
