-- ===== src/Tests/Shown.antt =====
-- The theorem on what `get_calls` shows, in a run with two ringing calls.
use aria_mobile_core.Base.{◌≡◌, refl, [], ◌∷◌, map}
use aria_mobile_core.Base.Dict.{Dict, contains_key, insert}
use aria_mobile_core.Engine.State.{Engine, PendingOutgoing, new_engine}
use aria_mobile_core.Engine.Calls.Listed.{with_maps}
use aria_mobile_core.Engine.Controls.{get_calls, set_gateway_token}
use aria_mobile_core.Auth.{token, set}
use aria_mobile_core.Engine.Ids.{used, mark_used, outgoing_client_ref}
use aria_mobile_core.Engine.Outgoing.{reserve_outgoing}
use aria_mobile_core.Engine.Steps.{Step, Reach}
use aria_mobile_core.Tests.Steps.{config}

abbrev signed_in : Engine
signed_in = set_gateway_token (new_engine config 0) "token"

abbrev one_ringing : Engine
one_ringing = (reserve_outgoing signed_in "outgoing-x" "sip:2@example.com").0

abbrev two_ringing : Engine
two_ringing = (reserve_outgoing one_ringing "outgoing-y" "sip:3@example.com").0

abbrev dialing_twice : Reach (new_engine config 0) two_ringing
dialing_twice = Reach.next (Step.signing_in (new_engine config 0) "token") (
    Reach.next (Step.reserving signed_in "outgoing-x" "sip:2@example.com") (
      Reach.next (Step.reserving one_ringing "outgoing-y" "sip:3@example.com")
        (Reach.here two_ringing)))

-- The first two entries change places.
abbrev swapped : Dict PendingOutgoing → Dict PendingOutgoing
swapped [] = []
swapped (x ∷ []) = x ∷ []
swapped (x ∷ y ∷ l) = y ∷ x ∷ l

two_ringing_test :
    map
      (λ c. c.call_id)
      (get_calls (with_maps two_ringing two_ringing.calls (swapped two_ringing.outgoing.ringing)))
    ≡ "outgoing-x" ∷ "outgoing-y" ∷ []
unfolding get_calls reserve_outgoing set_gateway_token new_engine outgoing_client_ref used
    contains_key token set mark_used insert
two_ringing_test = refl
