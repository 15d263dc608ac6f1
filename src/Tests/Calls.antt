-- ===== src/Tests/Calls.antt =====
-- The theorems on calls, at concrete inputs.
use aria_mobile_core.Base.{
  ℕ, zero, suc, ◌≤◌, ◌≡◌, refl, true, false, String, Option, none, some, is_some, [], ◌∷◌, length,
  arith,
}
use aria_mobile_core.Base.Dict.{get}
use aria_mobile_core.Types.{CallInfo, CallOffer, EndReason, MobileError, Result, ok, err}
use aria_mobile_core.Auth.{token}
use aria_mobile_core.Media.{MobileMediaSession}
use aria_mobile_core.Engine.State.{new_engine, used_outgoing_ids}
use aria_mobile_core.Engine.Ids.{used, mark_used, outgoing_client_ref}
use aria_mobile_core.Engine.Ids.Used.{marks, used-marks}
use aria_mobile_core.Engine.Controls.Active.{OneActive}
use aria_mobile_core.Engine.Hangup.{CancelTurn, hangup, cancel_at_gateway}
use aria_mobile_core.Engine.Hangup.Background.{StopsAt, cancel_at_gateway-StopsAt}
use aria_mobile_core.Engine.Outgoing.{ReservedOutgoing, reserve_outgoing}
use aria_mobile_core.Engine.Outgoing.Unmade.{hangup-reserve_outgoing}
use aria_mobile_core.Engine.Dial.{Select, Offer, MakeCallAnswer, dial}
use aria_mobile_core.Engine.Dial.Connect.{IsFreshMedia, dial-OneActive}
use aria_mobile_core.Engine.Accept.{AcceptRequests, accept_incoming_call}
use aria_mobile_core.Engine.Accept.Connect.{accept_incoming_call-OneActive}
use aria_mobile_core.Tests.Data.{
  engine_0, engine_1, engine_1-OneActive, media_lib, quiet, route_a, session,
}

abbrev the_session : Option MobileMediaSession
the_session = some session

abbrev offered : Select Offer
offered = record { cancel_first = false; meanwhile = λ e. e; answer = ok (the_session, "v=0") }

abbrev answered : Select MakeCallAnswer
answered = record {
  cancel_first = false;
  meanwhile = λ e. e;
  answer = ok ("token", "v=0", route_a);
}

session-IsFreshMedia :
    (m : Option MobileMediaSession) (sdp : String) → offered.answer ≡ ok (m, sdp) → IsFreshMedia m
session-IsFreshMedia none sdp h = tt
session-IsFreshMedia (some m) sdp h = (ground arith, ground arith, ground arith)

dial-OneActive_example :
    OneActive (dial media_lib engine_1 "outgoing-x" "sip:2@example.com" offered answered).0.calls
dial-OneActive_example =
    dial-OneActive media_lib engine_1 "outgoing-x" "sip:2@example.com" offered answered
      session-IsFreshMedia (λ e v. v) (λ e v. v) engine_1-OneActive

abbrev offer_b : CallOffer
offer_b = record {
  call_token = "b";
  caller_uri = "sip:3@example.com";
  caller_name = none;
  sdp_offer = "v=0";
}

abbrev accepting_b : AcceptRequests
accepting_b = record {
  offer = quiet (ok (offer_b, route_a));
  session = quiet (ok (session, "v=0"));
  accept = quiet (ok tt);
}

answer-IsFreshMedia :
    (m : MobileMediaSession) (sdp : String)
    → accepting_b.session.answer ≡ ok (m, sdp)
    → IsFreshMedia (some m)
answer-IsFreshMedia m sdp h = (ground arith, ground arith, ground arith)

accept_incoming_call-OneActive_example :
    OneActive (accept_incoming_call engine_1 "b" accepting_b).0.calls
accept_incoming_call-OneActive_example =
    accept_incoming_call-OneActive engine_1 "b" accepting_b answer-IsFreshMedia (λ e v. v)
      (λ e v. v) (λ e v. v) engine_1-OneActive

hangup-reserve_outgoing_example :
    let hung = hangup engine_1 "outgoing-x" in
    let first = reserve_outgoing hung.0 "outgoing-x" "sip:2@example.com" in
    (hung.1 ≡ ok tt)
    × (first.1 ≡ err MobileError.cancelled_error)
    × (first.0.calls ≡ engine_1.calls)
    × (first.0.outgoing.ringing ≡ engine_1.outgoing.ringing)
    × (reserve_outgoing first.0 "outgoing-x" "sip:4@example.com"
        ≡ (first.0, err MobileError.invalid_state))
unfolding new_engine get used outgoing_client_ref
hangup-reserve_outgoing_example =
    hangup-reserve_outgoing engine_1 "outgoing-x" "sip:2@example.com" "sip:4@example.com" "x" refl
      refl refl refl

-- Not yet sent, and then cancelled.
abbrev turns_2 : ℕ → CancelTurn
turns_2 zero = record { reply = quiet (ok false); pause = quiet false }
turns_2 (suc n) = record { reply = quiet (ok true); pause = quiet false }

cancel_at_gateway-StopsAt_example :
    StopsAt turns_2 4
      (cancel_at_gateway engine_0 0 turns_2).1
      (cancel_at_gateway engine_0 0 turns_2).2
cancel_at_gateway-StopsAt_example = cancel_at_gateway-StopsAt engine_0 0 turns_2

abbrev reserved_x : ReservedOutgoing
reserved_x = record {
  token = "key";
  info = record {
    call_id = "outgoing-x";
    remote_uri = "sip:2@example.com";
    remote_name = none;
    state = aria_mobile_core.Types.CallState.ringing;
    direction = aria_mobile_core.Types.CallDirection.outbound;
    muted = false;
    on_hold = false;
    duration_secs = 0;
    end_reason = none;
  };
  client_ref = "x";
  events = 0;
  dial = 0;
  pin = some route_a;
}

used-marks_example :
    (is_some (
        used "outgoing-x"
          (marks (mark_used engine_0.outgoing "outgoing-x" false) (("outgoing-y", true) ∷ [])).used)
      ≡ true)
    × (length (mark_used engine_0.outgoing "outgoing-x" false).used ≤ used_outgoing_ids)
unfolding new_engine
used-marks_example =
    used-marks engine_0.outgoing "outgoing-x" false (("outgoing-y", true) ∷ []) (omega arith)
      (omega arith)
