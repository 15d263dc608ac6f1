-- ===== src/Engine/Hangup/Taken.antt =====
-- About src/lib.rs, `hangup`: the call maps after it.
use aria_mobile_core.Base.{◌≡◌, ◌⊎◌, refl, String, eq_refl, none, inl, inr, arith, Option-cases}
use aria_mobile_core.Base.Dict.{Dict, get, remove, get-remove}
use aria_mobile_core.Engine.State.{Engine}
use aria_mobile_core.Engine.Ids.{mark_used}
use aria_mobile_core.Engine.Hangup.{
  TakenCall, active, ringing, not_yet_made, missing, hang_up_taken, take_unseen, take_ringing_or,
  take_active_or, hangup, take_for_hangup, cancel_ringing,
}

-- The call is not in both maps: what the source calls one step with respect to `dial`.
abbrev pub IsInOneMap : Engine → String → Type 0
IsInOneMap e id = (get id e.calls ≡ none) ⊎ (get id e.outgoing.ringing ≡ none)

hang_up_taken-maps :
    (id : String) (t : Engine × TakenCall)
    → ((hang_up_taken id t).0.calls ≡ t.0.calls) × ((hang_up_taken id t).0.outgoing ≡ t.0.outgoing)
unfolding cancel_ringing
hang_up_taken-maps id (e, active c) = elim (Option-cases c.call_token) [
  | inl n ↦ (rw n, rw n)
  | inr (t, n) ↦ (rw n ground arith, rw n ground arith)
]
hang_up_taken-maps id (e, ringing p) = (ground arith, ground arith)
hang_up_taken-maps id (e, not_yet_made) = (refl, refl)
hang_up_taken-maps id (e, missing) = (refl, refl)

abbrev IsGone : Engine → String → Type 0
IsGone e id = (get id e.calls ≡ none) × (get id e.outgoing.ringing ≡ none)

take_unseen-IsGone : (e : Engine) (id : String) → IsGone e id → IsGone (take_unseen e id).0 id
unfolding mark_used
take_unseen-IsGone e id (c, r) = (ground arith, ground arith)

get-remove_self : {V : Type 0} (k : String) (m : Dict V) → get k (remove k m) ≡ none
get-remove_self k m = rw (get-remove k k m, eq_refl k)

take_for_hangup-IsGone :
    (e : Engine) (id : String) → IsInOneMap e id → IsGone (take_for_hangup e id).0 id
unfolding take_for_hangup
take_for_hangup-IsGone e id h = elim (Option-cases (get id e.calls)) [
  | inl n ↦ elim (Option-cases (get id e.outgoing.ringing)) [
    | inl k ↦ rw (n, take_active_or, k, take_ringing_or) (take_unseen-IsGone e id (n, k))
    | inr (p, k) ↦
        rw (n, take_active_or, k, take_ringing_or) (n, get-remove_self id e.outgoing.ringing)
  ]
  | inr (c, n) ↦ rw (n, take_active_or) (get-remove_self id e.calls, ground arith)
]

-- A call that is in at most one of the call maps is in neither after a hangup, whatever the hangup
-- returns.
pub hangup-gone :
    (e : Engine) (id : String)
    → IsInOneMap e id
    → (get id (hangup e id).0.calls ≡ none) × (get id (hangup e id).0.outgoing.ringing ≡ none)
unfolding hangup
hangup-gone e id h =
    let taken = take_for_hangup e id in
    let (c, o) = hang_up_taken-maps id taken in
    let (gc, gr) = take_for_hangup-IsGone e id h in (rw c gc, rw o gr)
