-- ===== src/Engine/Dial.antt =====
-- src/lib.rs, `dial` and `make_call`: an outgoing call from its reservation to `Connected`, a failure
-- or a hangup. The parts between two waits are functions of their own; other threads act in the waits.
pub mod Connect
pub mod Opened
use aria_mobile_core.Base.{
  ℕ, ◌+◌, update, if◌then◌else◌, Bool, true, false, ◌&&◌, String, Option, none, some, List, [], ◌∷◌,
}
use aria_mobile_core.Base.Dict.{get, insert, modify, remove}
use aria_mobile_core.Types.{
  AudioCodec, CallInfo, CallState, EndReason, MobileError, Result, ok, err,
}
use aria_mobile_core.Gateway.Routes.{Route}
use aria_mobile_core.Media
use aria_mobile_core.Media.Sdp.{parse_sdp_remote}
use aria_mobile_core.Media.{MobileMediaSession, MediaLib}
use aria_mobile_core.Engine.State.{
  ActiveCallState, Answered, Engine, PendingOutgoing, Task, emit_on, emit_ended_on, set_cells,
  spawn,
}
use aria_mobile_core.Engine.Calls.{hold_others, start_media, stop_session}
use aria_mobile_core.Engine.Hangup.{take_ringing}
use aria_mobile_core.Engine.Outgoing.{ReservedOutgoing, reserve_outgoing}

-- A wait for an answer or for the hangup's `cancel`, whichever is there first; where both are there,
-- `cancel_first` says which is taken.
pub record Select {ℓ} (A : Type ℓ) : Type ℓ where
  pub meanwhile : Engine → Engine
  pub cancel_first : Bool
  pub answer : A

abbrev pub is_cancelled {ℓ} : {A : Type ℓ} → Engine → ℕ → Select A → Bool
is_cancelled e dial s = s.cancel_first && (e.dials dial).cancel

-- The media session (none only in tests) with the SDP offer; the token, the SDP answer and the route.
abbrev pub Offer : Type 0
Offer = Result (Option MobileMediaSession × String)

abbrev pub MakeCallAnswer : Type 0
MakeCallAnswer = Result (String × String × Route)

-- `Ringing` has been reported, so a failure closes the call, unless a hangup already has.
abbrev close_taken : MobileError → Engine × Option PendingOutgoing → Engine × Result CallInfo
close_taken x (e, none) = (e, err MobileError.cancelled_error)
close_taken x (e, some pending) =
    (emit_ended_on e pending.events pending.info EndReason.failed, err x)

unfoldable pub fail_ringing : Engine → String → MobileError → Engine × Result CallInfo
unfolding take_ringing
fail_ringing e call_id x = close_taken x (take_ringing e call_id)

-- The remote address, and SRTP where the far end accepted it; where it cannot, the call goes on.
abbrev pub connect_media : MediaLib → Option MobileMediaSession → String → Option MobileMediaSession
connect_media lib none sdp = none
connect_media lib (some m) sdp =
    let m' : MobileMediaSession = elim (parse_sdp_remote lib.parse_addr sdp) [
      | none ↦ m
      | some (addr, codec) ↦ Media.update_remote m addr
    ] in
    some (Media.apply_remote_sdp lib m' sdp).0

abbrev pub connected_info : CallInfo → CallInfo
connected_info info = record info { state = CallState.connected }

abbrev pub outgoing_call :
    ReservedOutgoing
    → PendingOutgoing
    → Option MobileMediaSession
    → String
    → Route
    → ℕ
    → ActiveCallState
outgoing_call r ringing media token route stop = record {
  info = connected_info r.info;
  seq = ringing.seq;
  media = media;
  call_token = some token;
  route = route;
  poll_stop = stop;
  events = r.events;
}

-- The call moves from the ringing ones to the call map, in one step with respect to `hangup`.
abbrev pub connect_ringing :
    Engine
    → String
    → ReservedOutgoing
    → Option MobileMediaSession
    → String
    → Route
    → Option PendingOutgoing
    → Engine × Result CallInfo
connect_ringing e call_id r media token route none = (
  spawn (stop_session e media)
      (Task.hang_up_if_answered call_id (Answered.known token route) r.dial),
  err MobileError.cancelled_error,
)
connect_ringing e call_id r media token route (some ringing) =
    let info = connected_info r.info in
    let e1 : Engine = record e {
      outgoing = record (e.outgoing) { ringing = remove call_id e.outgoing.ringing };
      fresh = e.fresh + 1;
      flag = update e.flag e.fresh false;
    } in
    let e2 = start_media (hold_others e1 call_id) media call_id in
    let call = outgoing_call r ringing media token route e.fresh in
    let e3 = emit_on (record e2 { calls = insert call_id call e2.calls }) r.events info in
    (spawn e3 (Task.call_status_poll call_id token route e.fresh), ok info)

unfoldable pub connect_outgoing :
    Engine
    → String
    → ReservedOutgoing
    → Option MobileMediaSession
    → String
    → Route
    → Engine × Result CallInfo
unfolding start_media
connect_outgoing e call_id r media token route =
    connect_ringing e call_id r media token route (get call_id e.outgoing.ringing)

-- After `POST /v1/calls`: hung up meanwhile, failed, or answered.
unfoldable pub finish_dial :
    MediaLib
    → Engine
    → String
    → ReservedOutgoing
    → Option MobileMediaSession
    → Select MakeCallAnswer
    → Engine × Result CallInfo
finish_dial lib e call_id r media request =
    if is_cancelled e r.dial request
    then (
      spawn (stop_session e media) (Task.hang_up_if_answered call_id Answered.in_flight r.dial),
      err MobileError.cancelled_error,
    )
    else let e1 = set_cells e r.dial (λ c. record c { request_done = true }) in
      elim request.answer [
        | err x ↦ fail_ringing (stop_session e1 media) call_id x
        | ok (token, sdp, route) ↦
            connect_outgoing e1 call_id r (connect_media lib media sdp) token route
      ]

abbrev pub mark_dialing : Engine → String → Engine
mark_dialing e call_id = record e {
  outgoing = record (e.outgoing) {
    ringing = modify call_id (λ p. record p { dialing = true }) e.outgoing.ringing;
  };
}

-- The write of `attempt` by the client's `make_call`, before it sends the request on a route: the call's
-- own thread, while its answer is awaited, so it is part of what happens meanwhile.
abbrev pub note_attempt : Engine → ℕ → Route → Engine
note_attempt e dial route = set_cells e dial (λ c. record c { route = some route })

-- With the media open: the call is marked as sent, unless it has been hung up.
unfoldable pub send_call :
    MediaLib
    → Engine
    → String
    → ReservedOutgoing
    → Option MobileMediaSession
    → Select MakeCallAnswer
    → Engine × Result CallInfo
send_call lib e call_id r media request = elim (get call_id e.outgoing.ringing) [
  | none ↦ (stop_session e media, err MobileError.cancelled_error)
  | some call ↦ finish_dial lib (request.meanwhile (mark_dialing e call_id)) call_id r media request
]

unfoldable pub dial_reserved :
    MediaLib
    → Engine
    → String
    → ReservedOutgoing
    → Select Offer
    → Select MakeCallAnswer
    → Engine × Result CallInfo
dial_reserved lib e call_id r offer request =
    if is_cancelled e r.dial offer
    then (e, err MobileError.cancelled_error)
    else elim offer.answer [
      | err x ↦ fail_ringing e call_id x
      | ok (media, sdp) ↦ send_call lib e call_id r media request
    ]

unfoldable pub dial :
    MediaLib
    → Engine
    → String
    → String
    → Select Offer
    → Select MakeCallAnswer
    → Engine × Result CallInfo
dial lib e call_id uri offer request =
    let (e1, reserved) = reserve_outgoing e call_id uri in
    elim reserved [
      | err x ↦ (e1, err x)
      | ok r ↦ dial_reserved lib (offer.meanwhile e1) call_id r offer request
    ]

-- The codecs that `make_call_with_id` offers.
abbrev pub chosen_codecs : Engine → List AudioCodec → List AudioCodec
chosen_codecs e [] = e.codec_prefs
chosen_codecs e (c ∷ cs) = c ∷ cs

-- `make_offer` is `create_offer_session` on those codecs.
unfoldable pub make_call_with_id :
    MediaLib
    → Engine
    → String
    → String
    → List AudioCodec
    → (List AudioCodec → Select Offer)
    → Select MakeCallAnswer
    → Engine × Result CallInfo
unfolding dial
make_call_with_id lib e call_id uri preferred make_offer request =
    dial lib e call_id uri (make_offer (chosen_codecs e preferred)) request
