-- ===== src/Engine/Accept/Reserve.antt =====
-- About src/lib.rs, `reserve_accept`: the number of live calls.
use aria_mobile_core.Base.{
  ◌+◌, ◌<◌, ◌≡◌, ◌⊎◌, inl, inr, false, String, ◌||◌, leb, arith, Bool-cases,
}
use aria_mobile_core.Base.Dict.{contains_key}
use aria_mobile_core.Types.{MobileError, ok, err}
use aria_mobile_core.Engine.State.{Engine, max_live_calls}
use aria_mobile_core.Engine.Calls.{live_call_count}
use aria_mobile_core.Engine.Incoming.{incoming_id}
use aria_mobile_core.Engine.Outgoing.{contains}
use aria_mobile_core.Engine.Outgoing.Reserve.{live}
use aria_mobile_core.Engine.Accept.{reserve_accept}

-- The reservation of an accept either succeeds, having found fewer live calls than the limit and the
-- call neither being accepted nor connected, and adds one live call, or it returns `invalid_state` and
-- changes nothing.
pub reserve_accept-live :
    (e : Engine) (t : String)
    → (((reserve_accept e t).1 ≡ ok tt)
        × (live e < max_live_calls)
        × (contains e.accepting t ≡ false)
        × (contains_key (incoming_id t) e.calls ≡ false)
        × (live (reserve_accept e t).0 ≡ live e + 1))
      ⊎ (reserve_accept e t ≡ (e, err MobileError.invalid_state))
unfolding reserve_accept
reserve_accept-live e t =
    elim (Bool-cases (contains e.accepting t || contains_key (incoming_id t) e.calls)) [
      | inl h ↦ inr (rw h)
      | inr h ↦
          elim (Bool-cases (leb max_live_calls (live_call_count e.calls e.outgoing e.accepting))) [
            | inl k ↦ inr (rw (h, k))
            | inr k ↦
                inl (rw (h, k), ground arith, ground arith, ground arith, rw (h, k) (omega arith))
          ]
    ]
