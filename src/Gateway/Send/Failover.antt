-- ===== src/Gateway/Send/Failover.antt =====
-- About src/gateway_client.rs, `send_on`: which routes a request is sent on.
use aria_mobile_core.Base.{◌≡◌, refl, Bool, true, false, List, [], ◌∷◌, ◌++◌, All, arith}
use aria_mobile_core.Types.{MobileError, Result, ok, err, from_http_error}
use aria_mobile_core.Gateway.Routes.{Route}
use aria_mobile_core.Gateway.Send.{
  Sent, response, not_connected, broken, connect_error, send_from, send_on,
}

module _ {ℓ} {R : Type ℓ} (outcome : Route → Sent R) where
  -- A route that could not be connected to.
  abbrev pub IsDown : Route → Type ℓ
  IsDown route = (t : Bool) × (outcome route ≡ not_connected t)

  -- The end of a request that was sent on one route.
  abbrev pub ends_with : Route → Result (R × Route)
  ends_with route = elim (outcome route) [
    | response r ↦ ok (r, route)
    | not_connected t ↦ err (from_http_error t)
    | broken t ↦ err (from_http_error t)
  ]

  abbrev pub last_of : MobileError → List Route → MobileError
  last_of last [] = last
  last_of last (route ∷ rest) = last_of (connect_error last (outcome route)) rest

  send_from_down :
      (last : MobileError) (down : List Route)
      → All IsDown down
      → send_from last down outcome ≡ (err (last_of last down), down)
  unfolding send_from
  send_from_down last [] h = refl
  send_from_down last (r ∷ down) h =
      ground (arith, h.0.1, send_from_down (connect_error last (outcome r)) down h.1)

  -- The request may have arrived: there is a response, or the connection failed later.
  abbrev pub may_have_arrived : Sent R → Bool
  may_have_arrived (not_connected t) = false
  may_have_arrived _ = true

  send_from_up :
      (last : MobileError) (down : List Route) (route : Route) (rest : List Route)
      → All IsDown down
      → may_have_arrived (outcome route) ≡ true
      → send_from last (down ++ route ∷ rest) outcome ≡ (ends_with route, down ++ route ∷ [])
  unfolding send_from
  send_from_up last [] route rest h up = ground arith
  send_from_up last (r ∷ down) route rest h up =
      ground (arith, h.0.1, send_from_up (connect_error last (outcome r)) down route rest h.1)

  -- With every route down, each is tried once and the last one's error is returned; with one that
  -- is not down behind them, that one answers, and no request is sent after the one that it got.
  pub send_on_first_up :
      (down : List Route) (route : Route) (rest : List Route)
      → All IsDown down
      → may_have_arrived (outcome route) ≡ true
      → (send_on down outcome ≡ (err (last_of MobileError.network_error down), down))
        × (send_on (down ++ route ∷ rest) outcome ≡ (ends_with route, down ++ route ∷ []))
  unfolding send_on
  send_on_first_up down route rest h up = (
    send_from_down MobileError.network_error down h,
    send_from_up MobileError.network_error down route rest h up,
  )
