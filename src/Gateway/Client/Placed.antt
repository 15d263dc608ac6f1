-- ===== src/Gateway/Client/Placed.antt =====
-- About src/gateway_client.rs, `make_call`: where a call is placed.
use aria_mobile_core.Base.{◌≡◌, Option, none, some, List, [], ◌∷◌, ◌++◌, All}
use aria_mobile_core.Types.{Result, ok}
use aria_mobile_core.Gateway.{GatewayClient, routes}
use aria_mobile_core.Gateway.Routes.{Route}
use aria_mobile_core.Gateway.Send.{Sent}
use aria_mobile_core.Gateway.Send.Failover.{IsDown}
use aria_mobile_core.Gateway.Status
use aria_mobile_core.Gateway.Status.{is_success}

-- The routes that were tried are some that could not be connected to and then one more, which alone
-- can have given a response.
abbrev pub EndsAt {ℓ} : {R : Type ℓ} → (Route → Sent R) → Result (R × Route) × List Route → Type ℓ
EndsAt {R = R} outcome sent =
    (before : List Route) × (last : Route) × (sent.1 ≡ before ++ last ∷ [])
    × All (IsDown outcome) before
    × ((r : R) (route : Route) → sent.0 ≡ ok (r, route) → route ≡ last)

targets_of : Option Route → GatewayClient → List Route
targets_of none g = routes g
targets_of (some route) g = route ∷ []
