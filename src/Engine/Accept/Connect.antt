-- ===== src/Engine/Accept/Connect.antt =====
-- About src/lib.rs, `accept_incoming_call`: the hold states and the media of the calls.
use aria_mobile_core.Base.{
  ◌≡◌, refl, if◌then◌else◌, ℕ, Bool, true, false, String, Option, some, inl, inr, arith,
  Option-cases,
}
use aria_mobile_core.Base.Dict.{get}
use aria_mobile_core.Types.{CallOffer, CallState, MobileError, Result, ok, err, Result-cases}
use aria_mobile_core.Auth
use aria_mobile_core.Gateway.Routes.{Route}
use aria_mobile_core.Media.{MobileMediaSession}
use aria_mobile_core.Events.{Outbox, queue_info}
use aria_mobile_core.Engine.Calls.{hold_others, start_media}
use aria_mobile_core.Engine.State.{Await, Engine}
use aria_mobile_core.Engine.Controls.Active.{OneActive}
use aria_mobile_core.Engine.Incoming.{
  take_pending_incoming, watch_incoming, raise_stop, incoming_id, incoming_info,
}
use aria_mobile_core.Engine.Dial.Connect.{
  IsFreshMedia, Keeps, start_media-calls, hold_and_insert-OneActive, fresh-Agrees,
}
use aria_mobile_core.Engine.Accept.{
  AcceptRequests, reserve_accept, release_accept, begin_answer, leave_pending, incoming_call,
  insert_answered, put_outbox, connect_incoming, after_accept, abandon_answer, refuse_answer,
  answer_offer, accept_reserved, accept_incoming_call,
}

take_pending_incoming-calls :
    (e : Engine) (t : String) → (take_pending_incoming e t).0.calls ≡ e.calls
unfolding take_pending_incoming
take_pending_incoming-calls e t = elim (Option-cases (get t e.pending_incoming)) [
  | inl n ↦ rw (n, raise_stop)
  | inr (p, n) ↦ rw (n, raise_stop)
]

pub watch_incoming-calls :
    (e : Engine) (o : CallOffer) (r : Route) (b : Bool) → (watch_incoming e o r b).0.calls ≡ e.calls
unfolding watch_incoming
watch_incoming-calls e o r b = ground arith

pub begin_answer-calls : (e : Engine) (t : String) → (begin_answer e t).0.calls ≡ e.calls
unfolding begin_answer
begin_answer-calls e t = ground arith

pub leave_pending-calls : (e : Engine) (t : String) → (leave_pending e t).calls ≡ e.calls
unfolding leave_pending
leave_pending-calls e t = rw (take_pending_incoming-calls e t) refl

insert_answered-OneActive :
    (e : Engine) (o : CallOffer) (r : Route) (m : Option MobileMediaSession) (cell stop : ℕ)
    (ended : Bool) (out : Outbox)
    → IsFreshMedia m
    → OneActive e.calls
    → OneActive
        (insert_answered
          (if ended
            then (e, false)
            else (put_outbox (hold_others e (incoming_id o.call_token)) out, true))
          o
          r
          m
          cell
          stop).0.calls
insert_answered-OneActive e o r m cell stop true out f v = v
insert_answered-OneActive e o r m cell stop false out f v =
    let id = incoming_id o.call_token in
    let e1 = start_media (put_outbox (hold_others e id) out) m id in
    let c = incoming_call o m r e1.next_seq stop cell in
    rw (start_media-calls (put_outbox (hold_others e id) out) m id)
      (hold_and_insert-OneActive e id c (fresh-Agrees c refl (refl, refl) f) v)

connect_incoming-OneActive :
    (e : Engine) (o : CallOffer) (r : Route) (m : Option MobileMediaSession) (cell : ℕ)
    → IsFreshMedia m
    → OneActive e.calls
    → OneActive (connect_incoming e o r m cell).0.calls
unfolding connect_incoming
connect_incoming-OneActive e o r m cell f v =
    let e1 = leave_pending e o.call_token in
    insert_answered-OneActive e1 o r m cell e.fresh (e1.outbox.ended cell)
      (queue_info (hold_others e1 (incoming_id o.call_token)).outbox cell
        (incoming_info o CallState.connected))
      f (rw (leave_pending-calls e o.call_token) v)

-- Accepting
pub abandon_answer-calls :
    (e : Engine) (o : CallOffer) (r : Route) (m : Option MobileMediaSession) (cell : ℕ)
    (x : MobileError)
    → (abandon_answer e o r m cell x).0.calls ≡ e.calls
unfolding abandon_answer
abandon_answer-calls e o r m cell x = ground arith

pub refuse_answer-calls :
    (e : Engine) (o : CallOffer) (m : Option MobileMediaSession) (x : MobileError)
    → (refuse_answer e o m x).0.calls ≡ e.calls
unfolding refuse_answer
refuse_answer-calls e o m x = refl

pub after_accept-OneActive :
    (e : Engine) (o : CallOffer) (r : Route) (m : Option MobileMediaSession) (cell : ℕ)
    (x : Result (Unit {0}))
    → IsFreshMedia m
    → OneActive e.calls
    → OneActive (after_accept e o r m cell x).0.calls
after_accept-OneActive e o r m cell (ok u) f v = connect_incoming-OneActive e o r m cell f v
after_accept-OneActive e o r m cell (err MobileError.timeout) f v =
    rw (abandon_answer-calls e o r m cell MobileError.timeout) v
after_accept-OneActive e o r m cell (err MobileError.network_error) f v =
    rw (abandon_answer-calls e o r m cell MobileError.network_error) v
after_accept-OneActive e o r m cell (err x) f v = rw (refuse_answer-calls e o m x) v

answer_offer-OneActive :
    (e : Engine) (o : CallOffer) (r : Route) (m : Option MobileMediaSession)
    (a : Await (Result (Unit {0})))
    → IsFreshMedia m
    → Keeps a.meanwhile
    → OneActive e.calls
    → OneActive (answer_offer e o r m a).0.calls
unfolding answer_offer
answer_offer-OneActive e o r m a f k v =
    let begun = begin_answer e o.call_token in
    after_accept-OneActive (a.meanwhile begun.0) o r m begun.1 a.answer f
      (k begun.0 (rw (begin_answer-calls e o.call_token) v))

accept_reserved-OneActive :
    (e : Engine) (r : AcceptRequests)
    → ((m : MobileMediaSession) (sdp : String)
        → r.session.answer ≡ ok (m, sdp)
        → IsFreshMedia (some m))
    → Keeps r.offer.meanwhile
    → Keeps r.session.meanwhile
    → Keeps r.accept.meanwhile
    → OneActive e.calls
    → OneActive (accept_reserved e r).0.calls
unfolding accept_reserved
accept_reserved-OneActive e r f ko ks ka v = elim (Result-cases (Auth.token e.auth)) [
  | inl (x, n) ↦ rw (n, accept_reserved) v
  | inr (t, n) ↦
      rw (n, accept_reserved)
        (elim (Result-cases r.offer.answer) [
          | inl (x, n) ↦ rw (n, accept_reserved) (ko e v)
          | inr (o, n) ↦
              rw (n, accept_reserved)
                (elim (Result-cases r.session.answer) [
                  | inl (x, n) ↦ rw (n, accept_reserved) (ks _ (ko e v))
                  | inr (m, n) ↦
                      rw (n, accept_reserved)
                        (answer_offer-OneActive _ o.0 o.1 (some m.0) r.accept (f m.0 m.1 n) ka
                          (ks _ (ko e v)))
                ])
        ])
]

pub reserve_accept-calls : (e : Engine) (t : String) → (reserve_accept e t).0.calls ≡ e.calls
unfolding reserve_accept
reserve_accept-calls e t = ground arith

-- If at most one call is off hold, and every call's session is held and muted as reported, then so
-- it is after an accept, whatever the gateway answers, provided that the session that the accept
-- opens is running and neither held nor muted and that what other threads do during the three
-- waits keeps this.
pub accept_incoming_call-OneActive :
    (e : Engine) (token : String) (r : AcceptRequests)
    → ((m : MobileMediaSession) (sdp : String)
        → r.session.answer ≡ ok (m, sdp)
        → IsFreshMedia (some m))
    → Keeps r.offer.meanwhile
    → Keeps r.session.meanwhile
    → Keeps r.accept.meanwhile
    → OneActive e.calls
    → OneActive (accept_incoming_call e token r).0.calls
unfolding accept_incoming_call release_accept
accept_incoming_call-OneActive e token r f ko ks ka v =
    let v1 : OneActive (reserve_accept e token).0.calls = rw (reserve_accept-calls e token) v in
    elim (Result-cases (reserve_accept e token).1) [
      | inl (x, n) ↦ rw (n, accept_incoming_call) v1
      | inr (u, n) ↦ rw (n, accept_incoming_call) (accept_reserved-OneActive _ r f ko ks ka v1)
    ]
