-- ===== src/Engine/Steps.antt =====
-- src/lib.rs: the engine as its threads share it. A step is what one thread does between two waits.
pub mod Kept
pub mod Reached
pub mod Taps
pub mod Tapped
pub mod Counter
pub mod Numbers
pub mod Numbered
pub mod Counted
pub mod Connected
pub mod Minted
pub mod Shown
pub mod Accepting
pub mod Limit
use aria_mobile_core.Base.{ℕ, ◌≤◌, ◌≡◌, Bool, String, Option, none, List, length}
use aria_mobile_core.Types.{CallOffer, CallStatusResponse, EndReason, MobileError, Result}
use aria_mobile_core.Gateway.Routes.{Route}
use aria_mobile_core.Media.{MobileMediaSession, MediaLib, tap_of}
use aria_mobile_core.Engine.State.{Engine, remote_ended_backlog, used_outgoing_ids}
use aria_mobile_core.Engine.Controls.{
  set_mute, set_hold, swap_calls, set_gateway_token, check_remote_hangup,
}
use aria_mobile_core.Engine.Controls.Active.{OneActive}
use aria_mobile_core.Engine.Hangup.{hangup}
use aria_mobile_core.Engine.Outgoing.{ReservedOutgoing, reserve_outgoing}
use aria_mobile_core.Engine.Dial.{
  Select, MakeCallAnswer, mark_dialing, note_attempt, fail_ringing, finish_dial,
}
use aria_mobile_core.Engine.Dial.Connect.{IsFreshInfo, IsFreshMedia}
use aria_mobile_core.Engine.Incoming.{watch_incoming, take_pending_incoming, end_rejected}
use aria_mobile_core.Engine.Accept.{reserve_accept, release_accept, begin_answer, after_accept}
use aria_mobile_core.Engine.Calls.{end_call_locally, report_auth_rejected}
use aria_mobile_core.Engine.Transfer.{Leg, end_transferred_leg}
use aria_mobile_core.Engine.Polls.{call_status, watch_status}

-- The controls, the parts of `dial` and of `accept_incoming_call` around their requests, a hangup, the
-- two polls on an answer, the watch that a push starts, a reject that the gateway took, the calls that a
-- transfer ends, and a 401. The info and the session that `dial` and
-- an accept carry from one of their parts to the next are as they were made.
pub data Step : Engine → Engine → Type 0 where
  muting : (e : Engine) (id : String) (b : Bool) → Step e (set_mute e id b).0
  holding : (e : Engine) (id : String) (b : Bool) → Step e (set_hold e id b).0
  swapping : (e : Engine) (active held : String) → Step e (swap_calls e active held).0
  hanging_up : (e : Engine) (id : String) → Step e (hangup e id).0
  reserving : (e : Engine) (id uri : String) → Step e (reserve_outgoing e id uri).0
  sending : (e : Engine) (id : String) → Step e (mark_dialing e id)
  trying : (e : Engine) (dial : ℕ) (route : Route) → Step e (note_attempt e dial route)
  dialed :
      (lib : MediaLib) (e : Engine) (id : String) (r : ReservedOutgoing)
      (m : Option MobileMediaSession) (request : Select MakeCallAnswer)
      → IsFreshInfo r.info
      → IsFreshMedia m
      → tap_of m ≡ none
      → Step e (finish_dial lib e id r m request).0
  not_dialed : (e : Engine) (id : String) (x : MobileError) → Step e (fail_ringing e id x).0
  accepting : (e : Engine) (token : String) → Step e (reserve_accept e token).0
  answering : (e : Engine) (token : String) → Step e (begin_answer e token).0
  answered :
      (e : Engine) (o : CallOffer) (r : Route) (m : Option MobileMediaSession) (cell : ℕ)
      (reply : Result (Unit {0}))
      → IsFreshMedia m
      → tap_of m ≡ none
      → Step e (after_accept e o r m cell reply).0
  accepted : (e : Engine) (token : String) → Step e (release_accept e token)
  polled :
      (e : Engine) (streak : ℕ) (id : String) (status : CallStatusResponse)
      → Step e (call_status e streak id status).0
  watched :
      (e : Engine) (streak : ℕ) (token : String) (status : CallStatusResponse)
      → Step e (watch_status e streak token status).0
  pushed :
      (e : Engine) (o : CallOffer) (r : Route) (abandoned : Bool)
      → Step e (watch_incoming e o r abandoned).0
  rejected : (e : Engine) (token : String) → Step e (end_rejected (take_pending_incoming e token))
  transferred : (e : Engine) (id : String) → Step e (end_call_locally e id EndReason.transferred).0
  left_up : (e : Engine) (leg : Leg) → Step e (end_transferred_leg e leg)
  unauthorized : (e : Engine) (generation : ℕ) → Step e (report_auth_rejected e generation)
  checking : (e : Engine) → Step e (check_remote_hangup e).0
  signing_in : (e : Engine) (token : String) → Step e (set_gateway_token e token)

-- The steps of all threads, in the order in which they happen.
pub data Reach : Engine → Engine → Type 0 where
  here : (e : Engine) → Reach e e
  next : {e e1 e2 : Engine} → Step e e1 → Reach e1 e2 → Reach e e2

pub record IsWellFormed (e : Engine) : Type 0 where
  pub active : OneActive e.calls
  pub used_bound : length e.outgoing.used ≤ used_outgoing_ids
  pub ended_bound : length e.remote_ended ≤ remote_ended_backlog
