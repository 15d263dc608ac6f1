-- ===== src/Tests/Steps.antt =====
-- The theorem on the steps of the engine's threads, on a run of a few of them.
use aria_mobile_core.Base.{◌≤◌, ◌≡◌, refl, true, false, String, none, some, length}
use aria_mobile_core.Types.{CallOffer, GatewayConfig, ok}
use aria_mobile_core.Engine.State.{Engine, new_engine, max_live_calls}
use aria_mobile_core.Engine.Controls.{set_mute}
use aria_mobile_core.Engine.Hangup.{hangup}
use aria_mobile_core.Engine.Outgoing.{contains, reserve_outgoing}
use aria_mobile_core.Engine.Incoming.{watch_incoming, take_pending_incoming}
use aria_mobile_core.Engine.Accept.{
  reserve_accept, release_accept, after_accept, answer_offer, begin_answer, connect_incoming,
  leave_pending,
}
use aria_mobile_core.Engine.Calls.{hold_others}
use aria_mobile_core.Auth.{current, new_auth, token}
use aria_mobile_core.Engine.Ids.{outgoing_client_ref, used, mark_used}
use aria_mobile_core.Events.{emit_ended}
use aria_mobile_core.Base.Dict.{get, contains_key, insert, remove}
use aria_mobile_core.Engine.Outgoing.Reserve.{live}
use aria_mobile_core.Engine.Steps.Limit.{new_engine-live}
use aria_mobile_core.Engine.Steps.{Step, Reach, IsWellFormed}
use aria_mobile_core.Engine.Steps.Reached.{new_engine-IsWellFormed}
use aria_mobile_core.Tests.Data.{route_a, session}

abbrev pub config : GatewayConfig
config = record { base_url = "https://gw.example.com"; api_key = "key" }

abbrev pub offer_a : CallOffer
offer_a = record {
  call_token = "a";
  caller_uri = "sip:3@example.com";
  caller_name = none;
  sdp_offer = "v=0";
}

-- A call is offered and being accepted; the app dials in between and hangs that call up; then the
-- accept gets its answer.
abbrev pub begun : Engine
begun = new_engine config 0

abbrev pub offered : Engine
offered = (watch_incoming begun offer_a route_a false).0

abbrev pub reserved : Engine
reserved = (reserve_accept offered "a").0

abbrev pub in_between : Engine
in_between = (hangup (reserve_outgoing reserved "outgoing-x" "sip:2@example.com").0 "outgoing-x").0

abbrev pub connected : Engine
connected = (after_accept in_between offer_a route_a (some session) 5 (ok tt)).0

abbrev pub run : Reach begun (set_mute (release_accept connected "a") "incoming-a" true).0
run = Reach.next (Step.pushed begun offer_a route_a false) (
    Reach.next (Step.accepting offered "a") (
      Reach.next (Step.reserving reserved "outgoing-x" "sip:2@example.com") (
        Reach.next
          (Step.hanging_up (reserve_outgoing reserved "outgoing-x" "sip:2@example.com").0
            "outgoing-x")
          (Reach.next
            (Step.answered in_between offer_a route_a (some session) 5 (ok tt) (refl, refl, refl)
              refl)
            (Reach.next (Step.accepted connected "a") (
              Reach.next (Step.muting (release_accept connected "a") "incoming-a" true)
                (Reach.here _)))))))

still_reserved : contains in_between.accepting "a" ≡ true
unfolding new_engine hangup get reserve_outgoing outgoing_client_ref used reserve_accept
    watch_incoming contains_key token new_auth insert mark_used
still_reserved = refl

new_engine-live_example :
    live (set_mute (release_accept connected "a") "incoming-a" true).0 ≤ max_live_calls
new_engine-live_example =
    new_engine-live config 0 (set_mute (release_accept connected "a") "incoming-a" true).0 run
      (tt, (tt, (tt, (tt, (still_reserved, (tt, (tt, tt)))))))

new_engine-IsWellFormed_example :
    IsWellFormed (set_mute (release_accept connected "a") "incoming-a" true).0
new_engine-IsWellFormed_example =
    new_engine-IsWellFormed config 0 (set_mute (release_accept connected "a") "incoming-a" true).0
      run

-- An accept drops its reservation by the token. A second accept of the same call, begun when the first
-- one's call is hung up and its guard is not yet dropped, loses its own reservation to that drop, and
-- two more calls are let in: three get connected, where `max_live_calls` is two.
abbrev offer_of : String → CallOffer
offer_of token = record {
  call_token = token;
  caller_uri = "sip:3@example.com";
  caller_name = none;
  sdp_offer = "v=0";
}

abbrev answer : Engine → String → Engine
answer e token =
    (answer_offer e (offer_of token) route_a (some session)
      (record { meanwhile = λ e. e; answer = ok tt })).0

abbrev hung_up : Engine
hung_up = (hangup (answer (reserve_accept begun "a").0 "a") "incoming-a").0

abbrev dropped : Engine
dropped = release_accept (reserve_accept hung_up "a").0 "a"

abbrev let_in : Engine
let_in = (reserve_accept (reserve_accept dropped "b").0 "c").0

stale_release_test :
    ((reserve_accept hung_up "a").1 ≡ ok tt)
    × ((reserve_accept dropped "b").1 ≡ ok tt)
    × ((reserve_accept (reserve_accept dropped "b").0 "c").1 ≡ ok tt)
    × (length (answer (answer (answer let_in "a") "b") "c").calls ≡ 3)
unfolding new_engine reserve_accept release_accept hangup answer_offer begin_answer get
    connect_incoming leave_pending take_pending_incoming contains_key insert hold_others current
    new_auth remove emit_ended
stale_release_test = (refl, refl, refl, refl)
