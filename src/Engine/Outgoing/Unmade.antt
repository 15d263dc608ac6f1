-- ===== src/Engine/Outgoing/Unmade.antt =====
-- About src/lib.rs, `hangup` and `reserve_outgoing`: a call that is hung up before it is made.
use aria_mobile_core.Base.{
  ◌≤◌, ◌≡◌, refl, Bool, true, false, ltb, String, eq_refl, none, some, List, [], ◌∷◌, ◌++◌, length,
  drop, length-append, inl, inr, arith, Bool-cases,
}
use aria_mobile_core.Base.Dict.{get}
use aria_mobile_core.Types.{EndReason, MobileError, ok, err}
use aria_mobile_core.Engine.State.{
  Engine, emit_ended_on, new_events, OutgoingCalls, used_outgoing_ids,
}
use aria_mobile_core.Engine.Ids.{used, clear_used, mark_used, outgoing_client_ref}
use aria_mobile_core.Engine.Hangup.{
  take_for_hangup, hangup, take_unseen, take_ringing_or, take_active_or, not_yet_made, unmade_info,
}
use aria_mobile_core.Engine.Outgoing.{reserve_outgoing, reserve_by_use}

used-append :
    (id : String) (p : Bool) (l : List (String × Bool))
    → used id l ≡ none
    → used id (l ++ (id, p) ∷ []) ≡ some p
unfolding used
used-append id p [] h = ground (arith, eq_refl id)
used-append id p ((j, q) ∷ l) h = ground (arith, used-append id p l)

used-drop_one :
    (id : String) (p : Bool) (l : List (String × Bool))
    → used id l ≡ none
    → 1 ≤ length l
    → used id (drop 1 (l ++ (id, p) ∷ [])) ≡ some p
unfolding used
used-drop_one id p [] h k = absurd (omega arith)
used-drop_one id p ((j, q) ∷ l) h k = ground (arith, used-append id p l)

used-mark_used :
    (o : OutgoingCalls) (id : String) (p : Bool)
    → used id o.used ≡ none
    → used id (mark_used o id p).used ≡ some p
unfolding mark_used
used-mark_used o id p h =
    elim (Bool-cases (ltb used_outgoing_ids (length (o.used ++ (id, p) ∷ [])))) [
      | inl t ↦
          rw t (used-drop_one id p o.used h (ground (arith, length-append o.used ((id, p) ∷ []))))
      | inr t ↦ rw t (used-append id p o.used h)
    ]

clear_used-used :
    (id : String) (p : Bool) (l : List (String × Bool))
    → used id l ≡ some p
    → used id (clear_used id l) ≡ some false
unfolding used clear_used
clear_used-used id p [] h = cc
clear_used-used id p ((j, q) ∷ l) h = ground (arith, clear_used-used id p l)

reserve_marked :
    (e : Engine) (id uri ref : String)
    → outgoing_client_ref id ≡ some ref
    → used id e.outgoing.used ≡ some true
    → reserve_outgoing e id uri ≡ reserve_by_use e id uri ref (some true)
unfolding reserve_outgoing
reserve_marked e id uri ref n u = rw (n, reserve_outgoing, u)

reserve_used :
    (e : Engine) (id uri ref : String)
    → outgoing_client_ref id ≡ some ref
    → used id e.outgoing.used ≡ some false
    → reserve_outgoing e id uri ≡ (e, err MobileError.invalid_state)
unfolding reserve_outgoing
reserve_used e id uri ref n u = rw (n, reserve_outgoing, u)

-- The engine after the hangup, and after the reservation that it refuses.
abbrev unmade : Engine → String → Engine
unmade e id =
    emit_ended_on (new_events (record e { outgoing = mark_used e.outgoing id true })) e.fresh
      (unmade_info id) EndReason.cancelled

abbrev unmade_refused : Engine → String → Engine
unmade_refused e id = (reserve_by_use (unmade e id) id "" "" (some true)).0

take_unseen_lem :
    (e : Engine) (id ref : String)
    → outgoing_client_ref id ≡ some ref
    → used id e.outgoing.used ≡ none
    → get id e.calls ≡ none
    → get id e.outgoing.ringing ≡ none
    → take_for_hangup e id ≡ (record e { outgoing = mark_used e.outgoing id true }, not_yet_made)
unfolding take_for_hangup
take_unseen_lem e id ref n u c r = rw (c, take_active_or, r, take_ringing_or, n, take_unseen, u)

mark_used-ringing :
    (o : OutgoingCalls) (id : String) (p : Bool) → (mark_used o id p).ringing ≡ o.ringing
unfolding mark_used
mark_used-ringing o id p = refl

hangup_unseen :
    (e : Engine) (id ref : String)
    → outgoing_client_ref id ≡ some ref
    → used id e.outgoing.used ≡ none
    → get id e.calls ≡ none
    → get id e.outgoing.ringing ≡ none
    → hangup e id ≡ (unmade e id, ok tt)
unfolding hangup
hangup_unseen e id ref n u c r = rw (take_unseen_lem e id ref n u c r)

-- A hangup of an outgoing id that is in no call map and was not used yet succeeds; then the
-- reservation of that id returns `cancelled_error`, with the call map and the ringing calls as
-- they were before the hangup, and the next reservation of it returns `invalid_state` and changes
-- nothing.
pub hangup-reserve_outgoing :
    (e : Engine) (id uri uri' ref : String)
    → outgoing_client_ref id ≡ some ref
    → used id e.outgoing.used ≡ none
    → get id e.calls ≡ none
    → get id e.outgoing.ringing ≡ none
    → let hung = hangup e id in
      let first = reserve_outgoing hung.0 id uri in
      (hung.1 ≡ ok tt)
      × (first.1 ≡ err MobileError.cancelled_error)
      × (first.0.calls ≡ e.calls)
      × (first.0.outgoing.ringing ≡ e.outgoing.ringing)
      × (reserve_outgoing first.0 id uri' ≡ (first.0, err MobileError.invalid_state))
hangup-reserve_outgoing e id uri uri' ref n u c r =
    let m = used-mark_used e.outgoing id true u in
    rw
      (
        hangup_unseen e id ref n u c r,
        reserve_marked (unmade e id) id uri ref n m,
        reserve_used (unmade_refused e id) id uri' ref n
            (clear_used-used id true (mark_used e.outgoing id true).used m),
      )
      (refl, refl, refl, mark_used-ringing e.outgoing id true, refl)
