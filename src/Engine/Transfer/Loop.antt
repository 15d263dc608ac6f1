-- ===== src/Engine/Transfer/Loop.antt =====
-- About src/lib.rs, `await_transfer_outcome`: how many rounds it takes.
use aria_mobile_core.Base.{
  ℕ, zero, suc, ◌+◌, ◌-◌, ◌≤◌, ◌<◌, ◌≡◌, refl, true, Option, none, some, is_some, List, [], ◌⊎◌,
  inl, inr, arith, Option-cases,
}
use aria_mobile_core.Types.{Result, Result-cases}
use aria_mobile_core.Auth
use aria_mobile_core.Engine.State.{Engine}
use aria_mobile_core.Engine.Transfer.{
  Leg, Rounds, Close, decided, again, close_round, legs_turn, transfer_rounds, transfer_timeout,
  await_transfer_outcome,
}

-- The rounds that are left at most, at the time `now`.
abbrev rounds_left : ℕ → Option ℕ → ℕ → ℕ
rounds_left deadline none now = (deadline - now) + 5002
rounds_left deadline (some t) now = (deadline - now) + (t - now) + 1

close_round-rounds_left :
    (deadline : ℕ) (e e' : Engine) (legs : List Leg) (s s' : Option ℕ) (now next : ℕ)
    → now < next
    → close_round deadline e legs s now ≡ again e' s'
    → suc (rounds_left deadline s' next) ≤ rounds_left deadline s now
unfolding close_round
close_round-rounds_left deadline e e' legs s s' now next l h = ground arith

-- The round's close, with the equation that says so.
pub Close-cases :
    (c : Close)
    → ((e : Engine) × (x : Result (Unit {0})) × (c ≡ decided e x))
      ⊎ ((e : Engine) × (s : Option ℕ) × (c ≡ again e s))
Close-cases (decided e x) = inl (e, x, refl)
Close-cases (again e s) = inr (e, s, refl)

rounds_left-positive : (deadline : ℕ) (s : Option ℕ) (now : ℕ) → 1 ≤ rounds_left deadline s now
rounds_left-positive deadline none now = omega arith
rounds_left-positive deadline (some t) now = omega arith

transfer_rounds-returns :
    (fuel : ℕ) (r : Rounds) (deadline i : ℕ) (e : Engine) (legs : List Leg) (s : Option ℕ)
    → ((n : ℕ) → r.now n < r.now (suc n))
    → rounds_left deadline s (r.now i) ≤ fuel
    → is_some (transfer_rounds fuel r deadline i e legs s) ≡ true
unfolding transfer_rounds
transfer_rounds-returns zero r deadline i e legs s k h =
    absurd (omega (arith, h, rounds_left-positive deadline s (r.now i)))
transfer_rounds-returns (suc fuel) r deadline i e legs s k h =
    let e1 = r.sleep i e in
    let turned = legs_turn e1 [] legs (r.reply i) in
    elim (Result-cases (Auth.token e1.auth)) [
      | inl (x, n) ↦ rw (n, transfer_rounds)
      | inr (t, n) ↦ elim (Option-cases turned.2) [
        | inr (x, m) ↦ rw (n, transfer_rounds, m)
        | inl m ↦ elim (Close-cases (close_round deadline turned.0 turned.1 s (r.now i))) [
          | inl (e', x, c) ↦ rw (n, transfer_rounds, m, c)
          | inr (e', s', c) ↦
              rw (n, transfer_rounds, m, c)
                (transfer_rounds-returns fuel r deadline (suc i) e' turned.1 s' k (
                  omega (
                    arith,
                    h,
                    close_round-rounds_left deadline turned.0 e' turned.1 s s' (r.now i)
                        (r.now (suc i)) (k i) c,
                  )))
        ]
      ]
    ]

-- The wait for a transfer's outcome returns within 40,002 rounds, whatever is answered, where the
-- clock at the end of the first round is not before the start and the clock goes on in every
-- round.
pub await_transfer_outcome-returns :
    (r : Rounds) (start : ℕ) (e : Engine) (legs : List Leg)
    → start ≤ r.now 0
    → ((n : ℕ) → r.now n < r.now (suc n))
    → is_some (await_transfer_outcome 40002 r start e legs) ≡ true
unfolding await_transfer_outcome
await_transfer_outcome-returns r start e legs h k =
    transfer_rounds-returns 40002 r (start + transfer_timeout) 0 e legs none k (omega (arith, h))
