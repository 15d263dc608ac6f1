-- ===== src/Engine/Steps/Connected.antt =====
-- About src/lib.rs: the numbers of the calls that `dial` and an accept put into the call map.
use aria_mobile_core.Base.{
  ℕ, ◌+◌, ◌≡◌, refl, ap, ◌∙◌, u64, update, Bool, true, false, if◌then◌else◌, String, Option, some,
  ◌∷◌, inl, inr, Bool-cases, Option-cases,
}
use aria_mobile_core.Base.Dict.{get, insert, remove}
use aria_mobile_core.Types.{CallOffer, CallState, MobileError, Result, Result-cases, ok, err}
use aria_mobile_core.Events.{Outbox, queue_info}
use aria_mobile_core.Gateway.Routes.{Route}
use aria_mobile_core.Media.{MobileMediaSession, MediaLib}
use aria_mobile_core.Engine.State.{ActiveCallState, Engine, PendingOutgoing}
use aria_mobile_core.Engine.Calls.{hold_others, start_media}
use aria_mobile_core.Engine.Outgoing.{ReservedOutgoing}
use aria_mobile_core.Engine.Dial.{
  Select, MakeCallAnswer, connect_media, outgoing_call, connect_ringing, connect_outgoing,
  is_cancelled, finish_dial,
}
use aria_mobile_core.Engine.Dial.Connect.{start_media-calls}
use aria_mobile_core.Engine.Incoming.{incoming_id, incoming_info}
use aria_mobile_core.Engine.Accept.{
  abandon_answer, refuse_answer, incoming_call, put_outbox, insert_answered, leave_pending,
  connect_incoming, after_accept,
}
use aria_mobile_core.Engine.Accept.Connect.{
  leave_pending-calls, abandon_answer-calls, refuse_answer-calls,
}
use aria_mobile_core.Engine.Steps.Counter.{
  Still, hold_others-Still, start_media-Still, leave_pending-Still, abandon_answer-Still,
  refuse_answer-Still,
}
use aria_mobile_core.Engine.Steps.Numbers.{
  Part, Part-append_left, Part-append_right, Part-middle, numbers, numbers-insert, numbers-taken,
}
use aria_mobile_core.Engine.Steps.Counted.{
  Fewer, Grown, Counted, all_seqs, none-Counted, Still-Fewer_same, fail_ringing-Fewer,
}
use aria_mobile_core.Engine.Steps.Numbered.{seqs, seq_of, ringing_seq_of, hold_others-seqs}

-- A new entry of the call map, after the others were held.
inserted-Part :
    (e held : Engine) (id : String) (m : Option MobileMediaSession) (c : ActiveCallState)
    → seqs held.calls ≡ seqs e.calls
    → Part (seqs (insert id c (start_media held m id).calls)) (c.seq ∷ seqs e.calls)
inserted-Part e held id m c h =
    rw (start_media-calls held m id, ← h) (numbers-insert seq_of id c held.calls)

-- A step that moves a ringing call to the call map.
moved-Fewer :
    (e e' : Engine) (id : String) (p : PendingOutgoing)
    → get id e.outgoing.ringing ≡ some p
    → Part (seqs e'.calls) (p.seq ∷ seqs e.calls)
    → e'.outgoing.ringing ≡ remove id e.outgoing.ringing
    → e'.next_seq ≡ e.next_seq
    → Fewer e e'
moved-Fewer e e' id p n c r u =
    let left = numbers ringing_seq_of (remove id e.outgoing.ringing) in
    (
      rw r (
          Part.then_ (Part-append_right left c) (
            Part.then_ (Part-middle p.seq (seqs e.calls) left) (
              Part-append_left (seqs e.calls)
                (numbers-taken ringing_seq_of id p e.outgoing.ringing n)))),
      u,
    )

connect_outgoing-Fewer :
    (e : Engine) (id : String) (r : ReservedOutgoing) (m : Option MobileMediaSession)
    (token : String) (route : Route)
    → Fewer e (connect_outgoing e id r m token route).0
unfolding connect_outgoing
connect_outgoing-Fewer e id r m token route = elim (Option-cases (get id e.outgoing.ringing)) [
  | inl n ↦ rw (n, connect_ringing) (Part.same (all_seqs e), refl)
  | inr (p, n) ↦
      rw (n, connect_ringing)
        (let e1 : Engine = record e {
          outgoing = record (e.outgoing) { ringing = remove id e.outgoing.ringing };
          fresh = e.fresh + 1;
          flag = update e.flag e.fresh false;
        } in
          let started = start_media-Still (hold_others e1 id) m id in
          let held = hold_others-Still e1 id in
          moved-Fewer e (connect_ringing e id r m token route (some p)).0 id p n
            (inserted-Part e1 (hold_others e1 id) id m (outgoing_call r p m token route e.fresh)
              (hold_others-seqs e1 id))
            (started.0 ∙ held.0) (started.1 ∙ held.1))
]

pub finish_dial-Fewer :
    (lib : MediaLib) (e : Engine) (id : String) (r : ReservedOutgoing)
    (m : Option MobileMediaSession) (request : Select MakeCallAnswer)
    → Fewer e (finish_dial lib e id r m request).0
unfolding finish_dial
finish_dial-Fewer lib e id r m request = elim (Bool-cases (is_cancelled e r.dial request)) [
  | inl t ↦ rw t (Part.same (all_seqs e), refl)
  | inr t ↦ rw t (elim (Result-cases request.answer) [
    | inl (x, a) ↦ rw a (fail_ringing-Fewer _ id x)
    | inr (p, a) ↦ rw a (connect_outgoing-Fewer _ id r (connect_media lib m p.1) p.0 p.2)
  ])
]

-- A step that gives a new call the number of the counter.
added-Grown :
    (e e' : Engine) (n : ℕ)
    → n ≡ e.next_seq
    → Part (seqs e'.calls) (n ∷ seqs e.calls)
    → e'.outgoing.ringing ≡ e.outgoing.ringing
    → e'.next_seq ≡ u64 (n + 1)
    → Grown e e'
added-Grown e e' n s c r u = (
  rw (r, ← s) (Part-append_right (numbers ringing_seq_of e.outgoing.ringing) c),
  u ∙ ap (λ k. u64 (k + 1)) s,
)

insert_answered-Counted :
    (e : Engine) (o : CallOffer) (r : Route) (m : Option MobileMediaSession) (cell stop : ℕ)
    (ended : Bool) (out : Outbox)
    → Counted e
        (insert_answered
          (if ended
            then (e, false)
            else (put_outbox (hold_others e (incoming_id o.call_token)) out, true))
          o
          r
          m
          cell
          stop).0
insert_answered-Counted e o r m cell stop true out = none-Counted e
insert_answered-Counted e o r m cell stop false out =
    let id = incoming_id o.call_token in
    let held = put_outbox (hold_others e id) out in
    let e1 = start_media held m id in
    let call = incoming_call o m r e1.next_seq stop cell in
    let (ringing, next) = start_media-Still held m id in
    let (ringing', next') = hold_others-Still e id in
    let part = inserted-Part e held id m call (hold_others-seqs e id) in
    inr (
      added-Grown e (insert_answered (held, true) o r m cell stop).0 e1.next_seq (next ∙ next') part
        (ringing ∙ ringing') refl)

pub connect_incoming-Counted :
    (e : Engine) (o : CallOffer) (r : Route) (m : Option MobileMediaSession) (cell : ℕ)
    → Counted e (connect_incoming e o r m cell).0
unfolding connect_incoming
connect_incoming-Counted e o r m cell =
    let e1 = leave_pending e o.call_token in
    after_leaving e1 (connect_incoming e o r m cell).0 (leave_pending-calls e o.call_token)
      (leave_pending-Still e o.call_token)
      (insert_answered-Counted e1 o r m cell e.fresh (e1.outbox.ended cell) (
        queue_info (hold_others e1 (incoming_id o.call_token)).outbox cell
          (incoming_info o CallState.connected)))
  where
    after_leaving :
        (e1 e2 : Engine) → e1.calls ≡ e.calls → Still e e1 → Counted e1 e2 → Counted e e2
    after_leaving e1 e2 c (r, n) h = rw (← c, ← r, ← n) h

pub abandon_answer-Fewer :
    (e : Engine) (o : CallOffer) (r : Route) (m : Option MobileMediaSession) (cell : ℕ)
    (x : MobileError)
    → Fewer e (abandon_answer e o r m cell x).0
abandon_answer-Fewer e o r m cell x =
    Still-Fewer_same e (abandon_answer e o r m cell x).0 (abandon_answer-Still e o r m cell x)
      (abandon_answer-calls e o r m cell x)

pub refuse_answer-Fewer :
    (e : Engine) (o : CallOffer) (m : Option MobileMediaSession) (x : MobileError)
    → Fewer e (refuse_answer e o m x).0
refuse_answer-Fewer e o m x =
    Still-Fewer_same e (refuse_answer e o m x).0 (refuse_answer-Still e o m x)
      (refuse_answer-calls e o m x)

pub after_accept-Counted :
    (e : Engine) (o : CallOffer) (r : Route) (m : Option MobileMediaSession) (cell : ℕ)
    (x : Result (Unit {0}))
    → Counted e (after_accept e o r m cell x).0
after_accept-Counted e o r m cell (ok _) = connect_incoming-Counted e o r m cell
after_accept-Counted e o r m cell (err MobileError.timeout) =
    inl (abandon_answer-Fewer e o r m cell MobileError.timeout)
after_accept-Counted e o r m cell (err MobileError.network_error) =
    inl (abandon_answer-Fewer e o r m cell MobileError.network_error)
after_accept-Counted e o r m cell (err x) = inl (refuse_answer-Fewer e o m x)
