-- ===== src/Engine/Steps/Kept.antt =====
-- About src/lib.rs: what the steps do to the memory of used ids and to the remote hangups kept.
use aria_mobile_core.Base.{
  ℕ, zero, suc, ◌-◌, ◌≤◌, ◌≡◌, refl, Bool, true, false, String, Option, List, [], ◌∷◌, ◌++◌, length,
  drop, arith,
}
use aria_mobile_core.Types.{CallOffer, CallStatusResponse, EndReason, MobileError, Result, ok, err}
use aria_mobile_core.Gateway.Routes.{Route}
use aria_mobile_core.Media.{MobileMediaSession, MediaLib}
use aria_mobile_core.Engine.State.{Engine, remote_ended_backlog, used_outgoing_ids}
use aria_mobile_core.Engine.Controls.{
  without_last, set_mute, set_hold, swap_calls, check_remote_hangup, push_remote_ended,
}
use aria_mobile_core.Engine.Calls.{
  end_call_locally, report_auth_rejected, hold_others, apply_hold, start_media,
}
use aria_mobile_core.Engine.Ids.{clear_used}
use aria_mobile_core.Engine.Ids.Used.{mark_used-length}
use aria_mobile_core.Engine.Hangup.{take_for_hangup, cancel_ringing, hangup}
use aria_mobile_core.Engine.Outgoing.{ReservedOutgoing, reserve_outgoing}
use aria_mobile_core.Engine.Dial.{
  Select, MakeCallAnswer, fail_ringing, connect_outgoing, finish_dial,
}
use aria_mobile_core.Engine.Incoming.{take_pending_incoming, end_rejected, watch_incoming}
use aria_mobile_core.Engine.Accept.{
  reserve_accept, begin_answer, leave_pending, connect_incoming, abandon_answer, refuse_answer,
  after_accept,
}
use aria_mobile_core.Engine.Transfer.{Leg, end_transferred_leg}
use aria_mobile_core.Engine.Polls.{call_status, watch_status}

-- The two memories are as before.
abbrev pub Kept : Engine → Engine → Type 0
Kept e e' = (e'.outgoing.used ≡ e.outgoing.used) × (e'.remote_ended ≡ e.remote_ended)

pub set_mute-Kept : (e : Engine) (id : String) (b : Bool) → Kept e (set_mute e id b).0
unfolding set_mute
set_mute-Kept e id b = (ground arith, ground arith)

pub set_hold-Kept : (e : Engine) (id : String) (b : Bool) → Kept e (set_hold e id b).0
unfolding set_hold hold_others
set_hold-Kept e id b = (ground arith, ground arith)

pub swap_calls-Kept : (e : Engine) (a h : String) → Kept e (swap_calls e a h).0
unfolding swap_calls hold_others apply_hold
swap_calls-Kept e a h = (ground arith, ground arith)

pub fail_ringing-Kept :
    (e : Engine) (id : String) (x : MobileError) → Kept e (fail_ringing e id x).0
unfolding fail_ringing
fail_ringing-Kept e id x = (ground arith, ground arith)

pub finish_dial-Kept :
    (lib : MediaLib) (e : Engine) (id : String) (r : ReservedOutgoing)
    (m : Option MobileMediaSession) (request : Select MakeCallAnswer)
    → Kept e (finish_dial lib e id r m request).0
unfolding finish_dial fail_ringing connect_outgoing start_media hold_others
finish_dial-Kept lib e id r m request = (ground arith, ground arith)

pub reserve_accept-Kept : (e : Engine) (t : String) → Kept e (reserve_accept e t).0
unfolding reserve_accept
reserve_accept-Kept e t = (ground arith, ground arith)

pub begin_answer-Kept : (e : Engine) (t : String) → Kept e (begin_answer e t).0
unfolding begin_answer
begin_answer-Kept e t = (ground arith, ground arith)

take_pending_incoming-Kept : (e : Engine) (t : String) → Kept e (take_pending_incoming e t).0
unfolding take_pending_incoming
take_pending_incoming-Kept e t = (ground arith, ground arith)

connect_incoming-Kept :
    (e : Engine) (o : CallOffer) (r : Route) (m : Option MobileMediaSession) (cell : ℕ)
    → Kept e (connect_incoming e o r m cell).0
unfolding connect_incoming leave_pending hold_others start_media
connect_incoming-Kept e o r m cell =
    let (u, k) = take_pending_incoming-Kept e o.call_token in (ground (arith, u), ground (arith, k))

abandon_answer-Kept :
    (e : Engine) (o : CallOffer) (r : Route) (m : Option MobileMediaSession) (cell : ℕ)
    (x : MobileError)
    → Kept e (abandon_answer e o r m cell x).0
unfolding abandon_answer watch_incoming
abandon_answer-Kept e o r m cell x = (ground arith, ground arith)

refuse_answer-Kept :
    (e : Engine) (o : CallOffer) (m : Option MobileMediaSession) (x : MobileError)
    → Kept e (refuse_answer e o m x).0
unfolding refuse_answer
refuse_answer-Kept e o m x = (ground arith, ground arith)

pub watch_incoming-Kept :
    (e : Engine) (o : CallOffer) (r : Route) (b : Bool) → Kept e (watch_incoming e o r b).0
unfolding watch_incoming
watch_incoming-Kept e o r b = (ground arith, ground arith)

pub after_accept-Kept :
    (e : Engine) (o : CallOffer) (r : Route) (m : Option MobileMediaSession) (cell : ℕ)
    (reply : Result (Unit {0}))
    → Kept e (after_accept e o r m cell reply).0
after_accept-Kept e o r m cell (ok u) = connect_incoming-Kept e o r m cell
after_accept-Kept e o r m cell (err MobileError.timeout) =
    abandon_answer-Kept e o r m cell MobileError.timeout
after_accept-Kept e o r m cell (err MobileError.network_error) =
    abandon_answer-Kept e o r m cell MobileError.network_error
after_accept-Kept e o r m cell (err x) = refuse_answer-Kept e o m x

pub watch_status-Kept :
    (e : Engine) (streak : ℕ) (t : String) (s : CallStatusResponse)
    → Kept e (watch_status e streak t s).0
unfolding watch_status
watch_status-Kept e streak t s = (ground arith, ground arith)

pub end_call_locally-Kept :
    (e : Engine) (id : String) (x : EndReason) → Kept e (end_call_locally e id x).0
unfolding end_call_locally
end_call_locally-Kept e id x = (ground arith, ground arith)

-- The steps that do change a memory keep its bound.
clear_used-length : (id : String) (l : List (String × Bool)) → length (clear_used id l) ≡ length l
unfolding clear_used
clear_used-length id [] = refl
clear_used-length id ((j, p) ∷ l) = ground (arith, clear_used-length id l)

pub hangup-used :
    (e : Engine) (id : String)
    → length e.outgoing.used ≤ used_outgoing_ids
    → length (hangup e id).0.outgoing.used ≤ used_outgoing_ids
unfolding hangup take_for_hangup cancel_ringing
hangup-used e id h = ground (arith, h, mark_used-length e.outgoing id true h)

pub hangup-remote_ended : (e : Engine) (id : String) → (hangup e id).0.remote_ended ≡ e.remote_ended
unfolding hangup take_for_hangup cancel_ringing
hangup-remote_ended e id = ground arith

pub reserve_outgoing-used :
    (e : Engine) (id uri : String)
    → length e.outgoing.used ≤ used_outgoing_ids
    → length (reserve_outgoing e id uri).0.outgoing.used ≤ used_outgoing_ids
unfolding reserve_outgoing
reserve_outgoing-used e id uri h =
    ground (arith, h, mark_used-length e.outgoing id false h, clear_used-length id e.outgoing.used)

pub reserve_outgoing-remote_ended :
    (e : Engine) (id uri : String) → (reserve_outgoing e id uri).0.remote_ended ≡ e.remote_ended
unfolding reserve_outgoing
reserve_outgoing-remote_ended e id uri = ground arith

length-drop : {A : Type 0} (n : ℕ) (l : List A) → length (drop n l) ≡ length l - n
length-drop zero l = omega arith
length-drop (suc n) [] = omega arith
length-drop (suc n) (x ∷ l) = omega (arith, length-drop n l)

push_remote_ended-length :
    (l : List String) (id : String) → length (push_remote_ended l id) ≤ remote_ended_backlog
unfolding push_remote_ended
push_remote_ended-length l id =
    let ended = l ++ id ∷ [] in
    ground (arith, length-drop (length ended - remote_ended_backlog) ended)

pub call_status-used :
    (e : Engine) (streak : ℕ) (id : String) (s : CallStatusResponse)
    → (call_status e streak id s).0.outgoing.used ≡ e.outgoing.used
unfolding call_status end_call_locally
call_status-used e streak id s = ground arith

pub call_status-remote_ended :
    (e : Engine) (streak : ℕ) (id : String) (s : CallStatusResponse)
    → length e.remote_ended ≤ remote_ended_backlog
    → length (call_status e streak id s).0.remote_ended ≤ remote_ended_backlog
unfolding call_status end_call_locally
call_status-remote_ended e streak id s h =
    ground (arith, h, push_remote_ended-length e.remote_ended id)

without_last-length : (l : List String) → length (without_last l) ≤ length l
without_last-length [] = omega arith
without_last-length (x ∷ []) = omega arith
without_last-length (x ∷ y ∷ l) = omega (arith, without_last-length (y ∷ l))

pub check_remote_hangup-used :
    (e : Engine) → (check_remote_hangup e).0.outgoing.used ≡ e.outgoing.used
unfolding check_remote_hangup end_call_locally
check_remote_hangup-used e = ground arith

pub check_remote_hangup-remote_ended :
    (e : Engine) → length (check_remote_hangup e).0.remote_ended ≤ length e.remote_ended
unfolding check_remote_hangup end_call_locally
check_remote_hangup-remote_ended e = ground (arith, without_last-length e.remote_ended)

pub end_rejected-Kept :
    (e : Engine) (t : String) → Kept e (end_rejected (take_pending_incoming e t))
unfolding take_pending_incoming
end_rejected-Kept e t = (ground arith, ground arith)

pub end_transferred_leg-Kept : (e : Engine) (leg : Leg) → Kept e (end_transferred_leg e leg)
unfolding end_transferred_leg end_call_locally
end_transferred_leg-Kept e leg = (ground arith, ground arith)

pub report_auth_rejected-Kept : (e : Engine) (g : ℕ) → Kept e (report_auth_rejected e g)
unfolding report_auth_rejected
report_auth_rejected-Kept e g = (ground arith, ground arith)
