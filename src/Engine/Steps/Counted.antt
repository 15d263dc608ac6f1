-- ===== src/Engine/Steps/Counted.antt =====
-- About src/lib.rs: a call gets the number `next_seq`, which then goes up; no other step makes a number.
use aria_mobile_core.Base.{
  ℕ, ◌+◌, ◌≡◌, refl, ◌∙◌, ◌⊎◌, u64, leb, or_else, Bool, true, false, ◌||◌, String, Option, none,
  some, List, ◌∷◌, ◌++◌, inl, inr, arith, Bool-cases, Option-cases,
}
use aria_mobile_core.Base.Dict.{get, contains_key, remove}
use aria_mobile_core.Types.{MobileError, Result-cases}
use aria_mobile_core.Auth
use aria_mobile_core.Gateway.Routes.{Route}
use aria_mobile_core.Engine.State.{ActiveCallState, Engine, PendingOutgoing, max_live_calls}
use aria_mobile_core.Engine.Ids.{outgoing_client_ref, mark_used, used}
use aria_mobile_core.Engine.Calls.{live_call_count, live_call_route}
use aria_mobile_core.Engine.Hangup.{
  TakenCall, take_for_hangup, take_active_or, take_ringing_or, hang_up_taken, hangup,
  cancel_ringing,
}
use aria_mobile_core.Engine.Outgoing.{
  accepting_route, new_pending, place_outgoing, reserve_checked, reserve_by_use, reserve_outgoing,
}
use aria_mobile_core.Engine.Dial.{mark_dialing, fail_ringing}
use aria_mobile_core.Engine.Dial.Connect.{fail_ringing-calls}
use aria_mobile_core.Engine.Steps.Counter.{Still}
use aria_mobile_core.Engine.Steps.Numbers.{
  Part, Part-append_left, Part-append_right, Part-middle_back, numbers, numbers-remove,
  numbers-modify, numbers-insert,
}
use aria_mobile_core.Engine.Steps.Reached.{hang_up_taken-calls, take_ringing_or-calls}
use aria_mobile_core.Engine.Steps.Numbered.{seqs, seq_of, ringing_seq_of}

-- The numbers of the connected, held and ringing calls.
abbrev pub all_seqs : Engine → List ℕ
all_seqs e = seqs e.calls ++ numbers ringing_seq_of e.outgoing.ringing

abbrev pub Fewer : Engine → Engine → Type 0
Fewer e e' = Part (all_seqs e') (all_seqs e) × (e'.next_seq ≡ e.next_seq)

abbrev pub Grown : Engine → Engine → Type 0
Grown e e' = Part (all_seqs e') (e.next_seq ∷ all_seqs e) × (e'.next_seq ≡ u64 (e.next_seq + 1))

abbrev pub Counted : Engine → Engine → Type 0
Counted e e' = Fewer e e' ⊎ Grown e e'

pub Still-Fewer : (e e' : Engine) → Still e e' → Part (seqs e'.calls) (seqs e.calls) → Fewer e e'
Still-Fewer e e' (r, n) p =
    (rw r (Part-append_right (numbers ringing_seq_of e.outgoing.ringing) p), n)

pub Still-Fewer_same : (e e' : Engine) → Still e e' → e'.calls ≡ e.calls → Fewer e e'
Still-Fewer_same e e' s c = Still-Fewer e e' s (rw c (Part.same (seqs e.calls)))

-- A step that takes a call out of the ringing ones.
unrung-Fewer :
    (e e' : Engine) (id : String)
    → e'.calls ≡ e.calls
    → e'.outgoing.ringing ≡ remove id e.outgoing.ringing
    → e'.next_seq ≡ e.next_seq
    → Fewer e e'
unrung-Fewer e e' id c r n = (
  rw (c, r) (Part-append_left (seqs e.calls) (numbers-remove ringing_seq_of id e.outgoing.ringing)),
  n,
)

pub mark_dialing-Fewer : (e : Engine) (id : String) → Fewer e (mark_dialing e id)
mark_dialing-Fewer e id = (
  rw
      (numbers-modify ringing_seq_of id (λ p. record p { dialing = true }) e.outgoing.ringing
        (λ p. refl))
      (Part.same (all_seqs e)),
  refl,
)

pub fail_ringing-Fewer :
    (e : Engine) (id : String) (x : MobileError) → Fewer e (fail_ringing e id x).0
unfolding fail_ringing
fail_ringing-Fewer e id x =
    unrung-Fewer e (fail_ringing e id x).0 id (fail_ringing-calls e id x) (ground arith)
      (ground arith)

hang_up_taken-Still : (id : String) (p : Engine × TakenCall) → Still p.0 (hang_up_taken id p).0
unfolding cancel_ringing
hang_up_taken-Still id (e, TakenCall.active call) = (ground arith, ground arith)
hang_up_taken-Still id (e, TakenCall.ringing pending) = (ground arith, ground arith)
hang_up_taken-Still id (e, TakenCall.not_yet_made) = (refl, refl)
hang_up_taken-Still id (e, TakenCall.missing) = (refl, refl)

pub hangup-Fewer : (e : Engine) (id : String) → Fewer e (hangup e id).0
unfolding hangup take_for_hangup mark_used
hangup-Fewer e id =
    let after : Fewer e (take_for_hangup e id).0 = by_call (get id e.calls) in
    let left =
      Still-Fewer_same (take_for_hangup e id).0 (hangup e id).0
        (hang_up_taken-Still id (take_for_hangup e id))
        (hang_up_taken-calls id (take_for_hangup e id)) in
    (Part.then_ left.0 after.0, left.1 ∙ after.1)
  where
    by_ringing : (o : Option PendingOutgoing) → Fewer e (take_ringing_or e id o).0
    by_ringing (some p) = unrung-Fewer e (take_ringing_or e id (some p)).0 id refl refl refl
    by_ringing none =
        Still-Fewer_same e (take_ringing_or e id none).0 (ground arith, ground arith)
          (take_ringing_or-calls e id none)

    by_call : (o : Option ActiveCallState) → Fewer e (take_active_or e id o).0
    by_call (some c) =
        Still-Fewer e (take_active_or e id (some c)).0 (refl, refl)
          (numbers-remove seq_of id e.calls)
    by_call none = by_ringing (get id e.outgoing.ringing)

placed-Grown :
    (e : Engine) (id uri client_ref token : String) (pin : Option Route)
    → Grown e (place_outgoing e id uri client_ref token pin).0
unfolding mark_used
placed-Grown e id uri client_ref token pin =
    let call = new_pending e id uri client_ref in
    (
      Part.then_
          (Part-append_left (seqs e.calls)
            (numbers-insert ringing_seq_of id call e.outgoing.ringing))
          (Part-middle_back e.next_seq (seqs e.calls) (numbers ringing_seq_of e.outgoing.ringing)),
      refl,
    )

pub none-Counted : (e : Engine) → Counted e e
none-Counted e = inl (Part.same (all_seqs e), refl)

reserve_checked-Counted :
    (e : Engine) (id uri client_ref : String) → Counted e (reserve_checked e id uri client_ref).0
reserve_checked-Counted e id uri client_ref =
    elim (Bool-cases (leb max_live_calls (live_call_count e.calls e.outgoing e.accepting))) [
      | inl t ↦ rw (reserve_checked, t) (none-Counted e)
      | inr t ↦ elim (Result-cases (Auth.token e.auth)) [
        | inl (x, a) ↦ rw (reserve_checked, t, a) (none-Counted e)
        | inr (token, a) ↦
            rw (reserve_checked, t, a)
              (inr (
                placed-Grown e id uri client_ref token (
                  or_else (live_call_route e.dials e.calls e.outgoing)
                    (accepting_route e.pending_incoming e.accepting))))
      ]
    ]

pub reserve_outgoing-Counted :
    (e : Engine) (id uri : String) → Counted e (reserve_outgoing e id uri).0
unfolding reserve_outgoing
reserve_outgoing-Counted e id uri = elim (Option-cases (outgoing_client_ref id)) [
  | inl n ↦ rw (n, reserve_outgoing) (none-Counted e)
  | inr (client_ref, n) ↦ rw (n, reserve_outgoing) (by_use client_ref (used id e.outgoing.used))
]
  where
    by_use :
        (client_ref : String) (u : Option Bool) → Counted e (reserve_by_use e id uri client_ref u).0
    by_use client_ref (some true) = none-Counted e
    by_use client_ref (some false) = none-Counted e
    by_use client_ref none =
        elim (Bool-cases (contains_key id e.calls || contains_key id e.outgoing.ringing)) [
          | inl t ↦ rw (reserve_by_use, t) (none-Counted e)
          | inr t ↦ rw (reserve_by_use, t) (reserve_checked-Counted e id uri client_ref)
        ]
