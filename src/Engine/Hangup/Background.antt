-- ===== src/Engine/Hangup/Background.antt =====
-- About src/lib.rs, `cancel_at_gateway`: when the loop asks again, and what its outcome says.
use aria_mobile_core.Base.{
  ℕ, zero, suc, ◌≤◌, ◌≡◌, refl, Bool, true, false, List, [], ◌∷◌, length, inl, inr, arith,
  Bool-cases,
}
use aria_mobile_core.Types.{MobileError, Result, ok, err}
use aria_mobile_core.Engine.State.{Engine}
use aria_mobile_core.Gateway.Routes.{Route}
use aria_mobile_core.Engine.Hangup.{
  CancelTurn, route_of, cancel_turns, cancel_at_gateway, cancel_retry_delays,
}

abbrev pub accepts : Result Bool → Bool
accepts (ok b) = b
accepts (err x) = false

-- The first `k` turns got 404.
abbrev pub NotFound : ℕ → (ℕ → CancelTurn) → Type 0
NotFound zero turn = Unit
NotFound (suc k) turn = ((turn 0).reply.answer ≡ ok false) × NotFound k (λ i. turn (suc i))

-- Turn `k` was the last of `routes`, it gave the outcome, and the turns before it got 404.
abbrev pub StopsAt : (ℕ → CancelTurn) → ℕ → Bool → List Route → Type 0
StopsAt turn n accepted routes =
    (k : ℕ) × (length routes ≡ suc k)
    × (k ≤ n)
    × (accepted ≡ accepts (turn k).reply.answer)
    × NotFound k turn

StopsAt-now :
    (turn : ℕ → CancelTurn) (n : ℕ) (accepted : Bool) (route : Route)
    → accepted ≡ accepts (turn 0).reply.answer
    → StopsAt turn n accepted (route ∷ [])
StopsAt-now turn n accepted route h = (0, refl, omega arith, h, tt)

StopsAt-later :
    (turn : ℕ → CancelTurn) (n : ℕ) (accepted : Bool) (route : Route) (routes : List Route)
    → (turn 0).reply.answer ≡ ok false
    → StopsAt (λ i. turn (suc i)) n accepted routes
    → StopsAt turn (suc n) accepted (route ∷ routes)
StopsAt-later turn n accepted route routes h (k, l, b, a, before) =
    (suc k, omega (arith, l), omega arith, a, (h, before))

-- What the loop returned is named apart from the loop, to be rewritten.
cancel_turns-last :
    (e : Engine) (dial : ℕ) (turn : ℕ → CancelTurn)
    → StopsAt turn 0 (cancel_turns e dial [] turn).1 (cancel_turns e dial [] turn).2
unfolding cancel_turns
cancel_turns-last e dial turn = by_reply (turn 0).reply.answer refl
  where
    by_reply :
        (a : Result Bool)
        → (turn 0).reply.answer ≡ a
        → StopsAt turn 0 (cancel_turns e dial [] turn).1 (cancel_turns e dial [] turn).2
    by_reply (ok b) n = rw (n, cancel_turns) (StopsAt-now turn 0 b (route_of e dial) (rw n))
    by_reply (err MobileError.authentication_error) n =
        rw (n, cancel_turns) (StopsAt-now turn 0 false (route_of e dial) (rw n))
    by_reply (err x) n = rw (n, cancel_turns) (StopsAt-now turn 0 false (route_of e dial) (rw n))

cancel_turns-StopsAt :
    (e : Engine) (dial : ℕ) (delays : List ℕ) (turn : ℕ → CancelTurn)
    → StopsAt turn
        (length delays)
        (cancel_turns e dial delays turn).1
        (cancel_turns e dial delays turn).2
unfolding cancel_turns
cancel_turns-StopsAt e dial [] turn = cancel_turns-last e dial turn
cancel_turns-StopsAt e dial (delay ∷ delays) turn =
    let e1 = (turn 0).reply.meanwhile e in
    by_reply (turn 0).reply.answer refl
      (cancel_turns-StopsAt ((turn 0).pause.meanwhile e1) dial delays (λ i. turn (suc i)))
  where
    by_reply :
        (a : Result Bool)
        → (turn 0).reply.answer ≡ a
        → StopsAt
            (λ i. turn (suc i))
            (length delays)
            (cancel_turns
              ((turn 0).pause.meanwhile ((turn 0).reply.meanwhile e))
              dial
              delays
              (λ i. turn (suc i))).1
            (cancel_turns
              ((turn 0).pause.meanwhile ((turn 0).reply.meanwhile e))
              dial
              delays
              (λ i. turn (suc i))).2
        → StopsAt turn
            (suc (length delays))
            (cancel_turns e dial (delay ∷ delays) turn).1
            (cancel_turns e dial (delay ∷ delays) turn).2
    by_reply (ok true) n h =
        rw (n, cancel_turns) (StopsAt-now turn (suc (length delays)) true (route_of e dial) (rw n))
    by_reply (ok false) n h =
        elim (Bool-cases (((turn 0).reply.meanwhile e).dials dial).request_done) [
          | inl t ↦
              rw (n, cancel_turns, t)
                (StopsAt-now turn (suc (length delays)) false (route_of e dial) (rw n))
          | inr t ↦ elim (Bool-cases (turn 0).pause.answer) [
            | inl w ↦
                rw (n, cancel_turns, t, w)
                  (StopsAt-now turn (suc (length delays)) false (route_of e dial) (rw n))
            | inr w ↦
                rw (n, cancel_turns, t, w)
                  (StopsAt-later turn (length delays) _ (route_of e dial) _ n h)
          ]
        ]
    by_reply (err MobileError.authentication_error) n h =
        rw (n, cancel_turns) (StopsAt-now turn (suc (length delays)) false (route_of e dial) (rw n))
    by_reply (err x) n h =
        rw (n, cancel_turns) (StopsAt-now turn (suc (length delays)) false (route_of e dial) (rw n))

-- A ringing call's cancel is asked for one to five times, again only while every answer so far was
-- 404, and what the loop returns is what the last answer says: cancelled if it accepted the cancel,
-- not cancelled if it did not or was an error.
pub cancel_at_gateway-StopsAt :
    (e : Engine) (dial : ℕ) (turn : ℕ → CancelTurn)
    → StopsAt turn 4 (cancel_at_gateway e dial turn).1 (cancel_at_gateway e dial turn).2
unfolding cancel_at_gateway
cancel_at_gateway-StopsAt e dial turn = cancel_turns-StopsAt e dial cancel_retry_delays turn
