-- ===== src/Engine/Steps/Counter.antt =====
-- About src/lib.rs: what the steps do to the ringing calls and to the counter `next_seq`.
use aria_mobile_core.Base.{ℕ, ◌≡◌, refl, Bool, String, Option, arith}
use aria_mobile_core.Types.{CallOffer, CallStatusResponse, EndReason, MobileError}
use aria_mobile_core.Gateway.Routes.{Route}
use aria_mobile_core.Media.{MobileMediaSession}
use aria_mobile_core.Engine.State.{Engine}
use aria_mobile_core.Engine.Controls.{set_mute, set_hold, swap_calls, check_remote_hangup}
use aria_mobile_core.Engine.Calls.{
  end_call_locally, report_auth_rejected, hold_others, apply_hold, start_media,
}
use aria_mobile_core.Engine.Incoming.{take_pending_incoming, end_rejected, watch_incoming}
use aria_mobile_core.Engine.Accept.{
  reserve_accept, begin_answer, leave_pending, abandon_answer, refuse_answer,
}
use aria_mobile_core.Engine.Transfer.{Leg, end_transferred_leg}
use aria_mobile_core.Engine.Polls.{call_status, watch_status}

-- The ringing calls and the counter are as before.
abbrev pub Still : Engine → Engine → Type 0
Still e e' = (e'.outgoing.ringing ≡ e.outgoing.ringing) × (e'.next_seq ≡ e.next_seq)

pub set_mute-Still : (e : Engine) (id : String) (b : Bool) → Still e (set_mute e id b).0
unfolding set_mute
set_mute-Still e id b = (ground arith, ground arith)

pub hold_others-Still : (e : Engine) (id : String) → Still e (hold_others e id)
unfolding hold_others
hold_others-Still e id = (refl, refl)

pub set_hold-Still : (e : Engine) (id : String) (b : Bool) → Still e (set_hold e id b).0
unfolding set_hold hold_others
set_hold-Still e id b = (ground arith, ground arith)

pub swap_calls-Still : (e : Engine) (a h : String) → Still e (swap_calls e a h).0
unfolding swap_calls hold_others apply_hold
swap_calls-Still e a h = (ground arith, ground arith)

pub start_media-Still :
    (e : Engine) (m : Option MobileMediaSession) (id : String) → Still e (start_media e m id)
unfolding start_media
start_media-Still e m id = (ground arith, ground arith)

pub reserve_accept-Still : (e : Engine) (t : String) → Still e (reserve_accept e t).0
unfolding reserve_accept
reserve_accept-Still e t = (ground arith, ground arith)

pub begin_answer-Still : (e : Engine) (t : String) → Still e (begin_answer e t).0
unfolding begin_answer
begin_answer-Still e t = (ground arith, ground arith)

pub leave_pending-Still : (e : Engine) (t : String) → Still e (leave_pending e t)
unfolding leave_pending take_pending_incoming
leave_pending-Still e t = (ground arith, ground arith)

pub abandon_answer-Still :
    (e : Engine) (o : CallOffer) (r : Route) (m : Option MobileMediaSession) (cell : ℕ)
    (x : MobileError)
    → Still e (abandon_answer e o r m cell x).0
unfolding abandon_answer watch_incoming
abandon_answer-Still e o r m cell x = (ground arith, ground arith)

pub refuse_answer-Still :
    (e : Engine) (o : CallOffer) (m : Option MobileMediaSession) (x : MobileError)
    → Still e (refuse_answer e o m x).0
unfolding refuse_answer
refuse_answer-Still e o m x = (ground arith, ground arith)

pub watch_incoming-Still :
    (e : Engine) (o : CallOffer) (r : Route) (b : Bool) → Still e (watch_incoming e o r b).0
unfolding watch_incoming
watch_incoming-Still e o r b = (ground arith, ground arith)

pub watch_status-Still :
    (e : Engine) (streak : ℕ) (t : String) (s : CallStatusResponse)
    → Still e (watch_status e streak t s).0
unfolding watch_status
watch_status-Still e streak t s = (ground arith, ground arith)

pub end_call_locally-Still :
    (e : Engine) (id : String) (x : EndReason) → Still e (end_call_locally e id x).0
unfolding end_call_locally
end_call_locally-Still e id x = (ground arith, ground arith)

pub call_status-Still :
    (e : Engine) (streak : ℕ) (id : String) (s : CallStatusResponse)
    → Still e (call_status e streak id s).0
unfolding call_status end_call_locally
call_status-Still e streak id s = (ground arith, ground arith)

pub check_remote_hangup-Still : (e : Engine) → Still e (check_remote_hangup e).0
unfolding check_remote_hangup end_call_locally
check_remote_hangup-Still e = (ground arith, ground arith)

pub end_rejected-Still :
    (e : Engine) (t : String) → Still e (end_rejected (take_pending_incoming e t))
unfolding take_pending_incoming
end_rejected-Still e t = (ground arith, ground arith)

pub end_transferred_leg-Still : (e : Engine) (leg : Leg) → Still e (end_transferred_leg e leg)
unfolding end_transferred_leg end_call_locally
end_transferred_leg-Still e leg = (ground arith, ground arith)

pub report_auth_rejected-Still : (e : Engine) (g : ℕ) → Still e (report_auth_rejected e g)
unfolding report_auth_rejected
report_auth_rejected-Still e g = (ground arith, ground arith)
