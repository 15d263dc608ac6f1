-- ===== src/Engine/Steps/Tapped.antt =====
-- About src/lib.rs: no step of the engine's threads makes a call feed a capture.
use aria_mobile_core.Base.{
  ℕ, ◌≡◌, refl, sym, subst, ◌∙◌, Bool, true, false, if◌then◌else◌, String, Option, none, some, inl,
  inr, arith, Bool-cases, Option-cases,
}
use aria_mobile_core.Base.Dict.{get, insert}
use aria_mobile_core.Types.{
  CallOffer, CallState, CallStatusResponse, EndReason, MobileError, Result, Result-cases, ok, err,
  from_gateway,
}
use aria_mobile_core.Events.{Outbox, queue_info}
use aria_mobile_core.Gateway.Routes.{Route}
use aria_mobile_core.Media
use aria_mobile_core.Media.{MediaLib, MobileMediaSession, tap_of}
use aria_mobile_core.Media.Sdp.{parse_sdp_remote}
use aria_mobile_core.Engine.State.{ActiveCallState, Engine}
use aria_mobile_core.Engine.Calls.{hold_others, end_call_locally, start_media}
use aria_mobile_core.Engine.Controls.{last?, without_last, check_remote_hangup, set_gateway_token}
use aria_mobile_core.Engine.Hangup.{take_for_hangup, take_active_or, hangup}
use aria_mobile_core.Engine.Outgoing.{ReservedOutgoing}
use aria_mobile_core.Engine.Dial.{
  Select, MakeCallAnswer, connect_media, outgoing_call, connect_ringing, connect_outgoing,
  is_cancelled, finish_dial,
}
use aria_mobile_core.Engine.Dial.Connect.{
  start_media-calls, fail_ringing-calls, reserve_outgoing-calls,
}
use aria_mobile_core.Engine.Incoming.{incoming_id, incoming_info}
use aria_mobile_core.Engine.Accept.{
  incoming_call, put_outbox, insert_answered, leave_pending, connect_incoming, after_accept,
  release_accept,
}
use aria_mobile_core.Engine.Accept.Connect.{
  reserve_accept-calls, begin_answer-calls, watch_incoming-calls, leave_pending-calls,
  abandon_answer-calls, refuse_answer-calls,
}
use aria_mobile_core.Engine.Transfer.{Leg, end_transferred_leg}
use aria_mobile_core.Engine.Polls.{is_gone, call_status}
use aria_mobile_core.Engine.Steps.{Step}
use aria_mobile_core.Engine.Steps.Reached.{
  hang_up_taken-calls, take_ringing_or-calls, watch_status-calls, end_rejected-calls,
  report_auth_rejected-calls,
}
use aria_mobile_core.Engine.Steps.Taps.{
  Taps, remove-Taps, insert-Taps, hold_others-Taps, set_mute-Taps, set_hold-Taps, swap_calls-Taps,
  end_call_locally-Taps,
}

with_keys-tap :
    (lib : MediaLib) (m : MobileMediaSession) (a b : Option String)
    → (Media.with_keys lib m a b).0.ai_tap ≡ m.ai_tap
unfolding Media.set_srtp_keys
with_keys-tap lib m none b = refl
with_keys-tap lib m (some r) none = refl
with_keys-tap lib m (some r) (some l) = ground arith

connect_media-tap :
    (lib : MediaLib) (m : Option MobileMediaSession) (sdp : String)
    → tap_of (connect_media lib m sdp) ≡ tap_of m
unfolding Media.apply_remote_sdp Media.update_remote
connect_media-tap lib none sdp = refl
connect_media-tap lib (some m) sdp = elim (Option-cases (parse_sdp_remote lib.parse_addr sdp)) [
  | inl n ↦ rw n (with_keys-tap lib m (lib.parse_sdp_crypto sdp) m.offered_srtp_key)
  | inr (p, n) ↦
      rw n (
        with_keys-tap lib (Media.update_remote m p.0) (lib.parse_sdp_crypto sdp) m.offered_srtp_key)
]

-- A call may always feed none.
module _ (P : String → Option ℕ → Type 0) (idle : (id : String) → P id none) where
  connected-Taps :
      (e : Engine) (id : String) (m : Option MobileMediaSession) (c : ActiveCallState)
      → tap_of c.media ≡ none
      → Taps P e.calls
      → Taps P (insert id c (start_media (hold_others e id) m id).calls)
  connected-Taps e id m c u h = rw (start_media-calls (hold_others e id) m id) (
      insert-Taps P id c (hold_others e id).calls (subst (P id) (sym u) (idle id))
        (hold_others-Taps P e id h))

  connect_outgoing-Taps :
      (e : Engine) (id : String) (r : ReservedOutgoing) (m : Option MobileMediaSession)
      (token : String) (route : Route)
      → tap_of m ≡ none
      → Taps P e.calls
      → Taps P (connect_outgoing e id r m token route).0.calls
  unfolding connect_outgoing
  connect_outgoing-Taps e id r m token route u h = elim (Option-cases (get id e.outgoing.ringing)) [
    | inl n ↦ rw (n, connect_ringing) h
    | inr (p, n) ↦
        rw (n, connect_ringing)
          (connected-Taps _ id m (outgoing_call r p m token route e.fresh) u h)
  ]

  finish_dial-Taps :
      (lib : MediaLib) (e : Engine) (id : String) (r : ReservedOutgoing)
      (m : Option MobileMediaSession) (request : Select MakeCallAnswer)
      → tap_of m ≡ none
      → Taps P e.calls
      → Taps P (finish_dial lib e id r m request).0.calls
  unfolding finish_dial
  finish_dial-Taps lib e id r m request u h = elim (Bool-cases (is_cancelled e r.dial request)) [
    | inl t ↦ rw t h
    | inr t ↦ rw t (elim (Result-cases request.answer) [
      | inl (x, a) ↦ rw a (rw (fail_ringing-calls _ id x) h)
      | inr (p, a) ↦ rw a (
          connect_outgoing-Taps _ id r (connect_media lib m p.1) p.0 p.2
            (connect_media-tap lib m p.1 ∙ u) h)
    ])
  ]

  insert_answered-Taps :
      (e : Engine) (o : CallOffer) (r : Route) (m : Option MobileMediaSession) (cell stop : ℕ)
      (ended : Bool) (out : Outbox)
      → tap_of m ≡ none
      → Taps P e.calls
      → Taps P
          (insert_answered
            (if ended
              then (e, false)
              else (put_outbox (hold_others e (incoming_id o.call_token)) out, true))
            o
            r
            m
            cell
            stop).0.calls
  insert_answered-Taps e o r m cell stop true out u h = h
  insert_answered-Taps e o r m cell stop false out u h =
      let id = incoming_id o.call_token in
      let e1 = start_media (put_outbox (hold_others e id) out) m id in
      rw (start_media-calls (put_outbox (hold_others e id) out) m id) (
        insert-Taps P id (incoming_call o m r e1.next_seq stop cell) (hold_others e id).calls
          (subst (P id) (sym u) (idle id)) (hold_others-Taps P e id h))

  after_accept-Taps :
      (e : Engine) (o : CallOffer) (r : Route) (m : Option MobileMediaSession) (cell : ℕ)
      (x : Result (Unit {0}))
      → tap_of m ≡ none
      → Taps P e.calls
      → Taps P (after_accept e o r m cell x).0.calls
  unfolding connect_incoming
  after_accept-Taps e o r m cell (ok _) u h =
      let e1 = leave_pending e o.call_token in
      insert_answered-Taps e1 o r m cell e.fresh (e1.outbox.ended cell)
        (queue_info (hold_others e1 (incoming_id o.call_token)).outbox cell
          (incoming_info o CallState.connected))
        u (rw (leave_pending-calls e o.call_token) h)
  after_accept-Taps e o r m cell (err MobileError.timeout) u h =
      rw (abandon_answer-calls e o r m cell MobileError.timeout) h
  after_accept-Taps e o r m cell (err MobileError.network_error) u h =
      rw (abandon_answer-calls e o r m cell MobileError.network_error) h
  after_accept-Taps e o r m cell (err x) u h = rw (refuse_answer-calls e o m x) h

  hangup-Taps : (e : Engine) (id : String) → Taps P e.calls → Taps P (hangup e id).0.calls
  unfolding hangup take_for_hangup
  hangup-Taps e id h = rw (hang_up_taken-calls id (take_for_hangup e id)) (by_call (get id e.calls))
    where
      by_call : (o : Option ActiveCallState) → Taps P (take_active_or e id o).0.calls
      by_call (some c) = remove-Taps P id e.calls h
      by_call none = rw (take_ringing_or-calls e id (get id e.outgoing.ringing)) h

  call_status-Taps :
      (e : Engine) (streak : ℕ) (id : String) (s : CallStatusResponse)
      → Taps P e.calls
      → Taps P (call_status e streak id s).0.calls
  unfolding call_status
  call_status-Taps e streak id s h =
      let reason = from_gateway s.reason EndReason.remote_hangup in
      let ended = end_call_locally-Taps P e id reason h in
      elim (Bool-cases (is_gone streak s.status).1) [
        | inr t ↦ rw t h
        | inl t ↦ elim (Bool-cases (end_call_locally e id reason).1) [
          | inl u ↦ rw (t, u) ended
          | inr u ↦ rw (t, u) ended
        ]
      ]

  check_remote_hangup-Taps : (e : Engine) → Taps P e.calls → Taps P (check_remote_hangup e).0.calls
  unfolding check_remote_hangup
  check_remote_hangup-Taps e h =
      let e' : Engine = record e { remote_ended = without_last e.remote_ended } in
      elim (Option-cases (last? e.remote_ended)) [
        | inl n ↦ rw (check_remote_hangup, n) h
        | inr (id, n) ↦
            rw (check_remote_hangup, n) (end_call_locally-Taps P e' id EndReason.remote_hangup h)
      ]

  end_transferred_leg-Taps :
      (e : Engine) (leg : Leg) → Taps P e.calls → Taps P (end_transferred_leg e leg).calls
  unfolding end_transferred_leg
  end_transferred_leg-Taps e leg h =
      let after = end_call_locally-Taps P e leg.call_id EndReason.transferred h in
      elim (Bool-cases (end_call_locally e leg.call_id EndReason.transferred).1) [
        | inl t ↦ rw t after
        | inr t ↦ rw t after
      ]

  pub Step-Taps : (e e' : Engine) → Step e e' → Taps P e.calls → Taps P e'.calls
  unfolding set_gateway_token release_accept
  Step-Taps _ _ (Step.muting e id b) h = set_mute-Taps P e id b h
  Step-Taps _ _ (Step.holding e id b) h = set_hold-Taps P e id b h
  Step-Taps _ _ (Step.swapping e a b) h = swap_calls-Taps P e a b h
  Step-Taps _ _ (Step.hanging_up e id) h = hangup-Taps e id h
  Step-Taps _ _ (Step.reserving e id uri) h = rw (reserve_outgoing-calls e id uri) h
  Step-Taps _ _ (Step.sending e id) h = h
  Step-Taps _ _ (Step.trying e dial r) h = h
  Step-Taps _ _ (Step.dialed lib e id r m request i f u) h =
      finish_dial-Taps lib e id r m request u h
  Step-Taps _ _ (Step.not_dialed e id x) h = rw (fail_ringing-calls e id x) h
  Step-Taps _ _ (Step.accepting e t) h = rw (reserve_accept-calls e t) h
  Step-Taps _ _ (Step.answering e t) h = rw (begin_answer-calls e t) h
  Step-Taps _ _ (Step.answered e o r m cell reply f u) h = after_accept-Taps e o r m cell reply u h
  Step-Taps _ _ (Step.accepted e t) h = h
  Step-Taps _ _ (Step.polled e streak id s) h = call_status-Taps e streak id s h
  Step-Taps _ _ (Step.watched e streak t s) h = rw (watch_status-calls e streak t s) h
  Step-Taps _ _ (Step.pushed e o r b) h = rw (watch_incoming-calls e o r b) h
  Step-Taps _ _ (Step.rejected e t) h = rw (end_rejected-calls e t) h
  Step-Taps _ _ (Step.transferred e id) h = end_call_locally-Taps P e id EndReason.transferred h
  Step-Taps _ _ (Step.left_up e leg) h = end_transferred_leg-Taps e leg h
  Step-Taps _ _ (Step.unauthorized e g) h = rw (report_auth_rejected-calls e g) h
  Step-Taps _ _ (Step.checking e) h = check_remote_hangup-Taps e h
  Step-Taps _ _ (Step.signing_in e t) h = h
