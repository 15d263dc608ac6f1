-- ===== src/Engine/Accept.antt =====
-- src/lib.rs, accepting an offered call: `accept_incoming_call` and `answer_offer`.
pub mod Connect
pub mod Opened
pub mod Reserve
use aria_mobile_core.Base.{
  ℕ, ◌+◌, leb, u64, update, if◌then◌else◌, Bool, true, false, ◌||◌, String, str_eq, Option, none,
  some, List, [], ◌∷◌,
}
use aria_mobile_core.Base.Dict.{get, contains_key, insert, modify}
use aria_mobile_core.Types.{CallInfo, CallOffer, CallState, EndReason, MobileError, Result, ok, err}
use aria_mobile_core.Events.{Outbox, emit_after}
use aria_mobile_core.Auth
use aria_mobile_core.Gateway.Routes.{Route}
use aria_mobile_core.Media.{MobileMediaSession}
use aria_mobile_core.Engine.State.{
  ActiveCallState, Await, Engine, Task, emit_ended_on, max_live_calls, new_events, spawn,
}
use aria_mobile_core.Engine.Calls.{hold_others, live_call_count, start_media, stop_session}
use aria_mobile_core.Engine.Outgoing.{contains}
use aria_mobile_core.Engine.Incoming.{
  incoming_id, incoming_info, take_pending_incoming, watch_incoming,
}

-- `HashSet::remove`.
abbrev pub without_token : String → List String → List String
without_token t [] = []
without_token t (s ∷ l) = if str_eq s t then without_token t l else s ∷ without_token t l

-- The reservation is held until `release_accept`, when its guard is dropped.
unfoldable pub reserve_accept : Engine → String → Engine × Result (Unit {0})
reserve_accept e call_token =
    if contains e.accepting call_token || contains_key (incoming_id call_token) e.calls
    then (e, err MobileError.invalid_state)
    else if leb max_live_calls (live_call_count e.calls e.outgoing e.accepting)
    then (e, err MobileError.invalid_state)
    else (record e { accepting = call_token ∷ e.accepting }, ok tt)

unfoldable pub release_accept : Engine → String → Engine
release_accept e call_token = record e { accepting = without_token call_token e.accepting }

-- From here an `active` status is this handset answering. Without a watch the call gets `CallEvents`
-- of its own.
unfoldable pub begin_answer : Engine → String → Engine × ℕ
begin_answer e call_token = elim (get call_token e.pending_incoming) [
  | some entry ↦ (
    record e {
      pending_incoming = modify call_token (λ p. record p { accepting = true }) e.pending_incoming;
    },
    entry.events,
  )
  | none ↦ (new_events e, e.fresh)
]

abbrev pub put_outbox : Engine → Outbox → Engine
put_outbox e o = record e { outbox = o }

abbrev pub incoming_call :
    CallOffer → Option MobileMediaSession → Route → ℕ → ℕ → ℕ → ActiveCallState
incoming_call offer media route seq stop cell = record {
  info = incoming_info offer CallState.connected;
  seq = seq;
  media = media;
  call_token = some offer.call_token;
  route = route;
  poll_stop = stop;
  events = cell;
}

-- The part of `answer_offer` after the gateway took the answer.
abbrev pub insert_answered :
    Engine × Bool → CallOffer → Route → Option MobileMediaSession → ℕ → ℕ → Engine × Result CallInfo
insert_answered (e, false) offer route media cell stop = (
  spawn (stop_session e media) (Task.hang_up route (incoming_id offer.call_token) offer.call_token),
  err MobileError.invalid_state,
)
insert_answered (e, true) offer route media cell stop =
    let call_id = incoming_id offer.call_token in
    let info = incoming_info offer CallState.connected in
    let e1 = start_media e media call_id in
    let call = incoming_call offer media route e1.next_seq stop cell in
    let e2 : Engine = record e1 {
      calls = insert call_id call e1.calls;
      next_seq = u64 (e1.next_seq + 1);
    } in
    (spawn e2 (Task.call_status_poll call_id offer.call_token route stop), ok info)

-- The watch and the reservation go, and the status poll gets its flag, the cell that was free before.
unfoldable pub leave_pending : Engine → String → Engine
leave_pending e call_token =
    let e1 = (take_pending_incoming e call_token).0 in
    record e1 {
      accepting = without_token call_token e1.accepting;
      flag = update e1.flag e1.fresh false;
      fresh = e1.fresh + 1;
    }

unfoldable pub connect_incoming :
    Engine → CallOffer → Route → Option MobileMediaSession → ℕ → Engine × Result CallInfo
unfolding start_media
connect_incoming e offer route media cell =
    let e1 = leave_pending e offer.call_token in
    insert_answered
      (emit_after (λ e. e.outbox) put_outbox e1 cell (incoming_info offer CallState.connected)
        (λ e. hold_others e (incoming_id offer.call_token)))
      offer route media cell e.fresh

-- An accept with an unknown outcome leaves the call to the watch, as abandoned.
unfoldable pub abandon_answer :
    Engine
    → CallOffer
    → Route
    → Option MobileMediaSession
    → ℕ
    → MobileError
    → Engine × Result CallInfo
unfolding watch_incoming
abandon_answer e offer route media cell x =
    let e1 = (watch_incoming (stop_session e media) offer route true).0 in
    (emit_ended_on e1 cell (incoming_info offer CallState.connected) EndReason.failed, err x)

-- A refused accept: the call is still offered, and still watched.
unfoldable pub refuse_answer :
    Engine → CallOffer → Option MobileMediaSession → MobileError → Engine × Result CallInfo
refuse_answer e offer media x = (
  stop_session
      (record e {
        pending_incoming =
            modify offer.call_token (λ p. record p { accepting = false }) e.pending_incoming;
      })
      media,
  err x,
)

abbrev pub after_accept :
    Engine
    → CallOffer
    → Route
    → Option MobileMediaSession
    → ℕ
    → Result (Unit {0})
    → Engine × Result CallInfo
after_accept e offer route media cell (ok _) = connect_incoming e offer route media cell
after_accept e offer route media cell (err MobileError.timeout) =
    abandon_answer e offer route media cell MobileError.timeout
after_accept e offer route media cell (err MobileError.network_error) =
    abandon_answer e offer route media cell MobileError.network_error
after_accept e offer route media cell (err x) = refuse_answer e offer media x

-- `accept` is the gateway's answer to the accept request.
unfoldable pub answer_offer :
    Engine
    → CallOffer
    → Route
    → Option MobileMediaSession
    → Await (Result (Unit {0}))
    → Engine × Result CallInfo
answer_offer e offer route media accept =
    let (e1, cell) = begin_answer e offer.call_token in
    after_accept (accept.meanwhile e1) offer route media cell accept.answer

-- What `accept_incoming_call` awaits, in order: the offer, the media session, the accept.
pub record AcceptRequests : Type 0 where
  pub offer : Await (Result (CallOffer × Route))
  pub session : Await (Result (MobileMediaSession × String))
  pub accept : Await (Result (Unit {0}))

unfoldable pub accept_reserved : Engine → AcceptRequests → Engine × Result CallInfo
accept_reserved e r = elim (Auth.token e.auth) [
  | err x ↦ (e, err x)
  | ok token ↦ elim r.offer.answer [
    | err x ↦ (r.offer.meanwhile e, err x)
    | ok (offer, route) ↦
        let e1 = r.session.meanwhile (r.offer.meanwhile e) in
        elim r.session.answer [
          | err x ↦ (e1, err x)
          | ok (media, sdp_answer) ↦ answer_offer e1 offer route (some media) r.accept
        ]
  ]
]

-- The guard of the reservation is dropped whichever way the accept ends.
unfoldable pub accept_incoming_call : Engine → String → AcceptRequests → Engine × Result CallInfo
accept_incoming_call e call_token r =
    let (e1, reserved) = reserve_accept e call_token in
    elim reserved [
      | err x ↦ (e1, err x)
      | ok _ ↦ let (e2, result) = accept_reserved e1 r in (release_accept e2 call_token, result)
    ]
