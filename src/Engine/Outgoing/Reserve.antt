-- ===== src/Engine/Outgoing/Reserve.antt =====
-- About src/lib.rs, `reserve_outgoing`: the number of live calls.
use aria_mobile_core.Base.{ℕ, ◌+◌, ◌<◌, ◌≡◌, String, inl, inr, arith, Option-cases}
use aria_mobile_core.Base.Dict.{contains_key, length-insert_new}
use aria_mobile_core.Types.{ok}
use aria_mobile_core.Engine.State.{Engine, max_live_calls}
use aria_mobile_core.Engine.Calls.{live_call_count}
use aria_mobile_core.Engine.Ids.{mark_used, outgoing_client_ref}
use aria_mobile_core.Engine.Outgoing.{ReservedOutgoing, reserve_outgoing, new_pending}

abbrev pub live : Engine → ℕ
live e = live_call_count e.calls e.outgoing e.accepting

pub reserve_outgoing-live :
    (e : Engine) (id uri : String) (r : ReservedOutgoing)
    → (reserve_outgoing e id uri).1 ≡ ok r
    → (live e < max_live_calls) × (live (reserve_outgoing e id uri).0 ≡ live e + 1)
unfolding reserve_outgoing mark_used contains_key
reserve_outgoing-live e id uri r h = elim (Option-cases (outgoing_client_ref id)) [
  | inl n ↦ ground arith
  | inr (ref, n) ↦ (
    ground arith,
    ground (arith, length-insert_new id (new_pending e id uri ref) e.outgoing.ringing),
  )
]
