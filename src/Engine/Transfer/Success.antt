-- ===== src/Engine/Transfer/Success.antt =====
-- About src/lib.rs, `await_transfer_outcome`: the call map after a success.
use aria_mobile_core.Base.{
  ℕ, zero, suc, ◌+◌, ◌≡◌, ap, subst, any, all, leb, true, String, Option, none, some, List, [], ◌∷◌,
  inl, inr, arith, Bool-cases, Option-cases,
}
use mathlib.Core.Option.{some-injective}
use aria_mobile_core.Types.{Result, ok, err, Result-cases}
use aria_mobile_core.Auth
use aria_mobile_core.Engine.State.{Engine}
use aria_mobile_core.Engine.Transfer.{
  Leg, Rounds, Close, decided, again, close_round, legs_turn, settle_from, transfer_rounds,
  transfer_timeout, await_transfer_outcome,
}
use aria_mobile_core.Engine.Transfer.Loop.{Close-cases}
use aria_mobile_core.Engine.Transfer.Outcome.{
  Forgets, leg_ids, AllAbsent, AllGone, MarkedGone, MarkedGone-Forgets, end_left_up-AllGone,
  legs_turn-Rounded,
}

abbrev GoneOnOk : Option (Engine × Result (Unit {0})) → List String → Type 0
GoneOnOk o ids = (e : Engine) → o ≡ some (e, ok tt) → AllAbsent e ids

GoneOnOk-some :
    (e : Engine) (x : Result (Unit {0})) (ids : List String)
    → (x ≡ ok tt → AllAbsent e ids)
    → GoneOnOk (some (e, x)) ids
GoneOnOk-some e x ids k e' h =
    let p = some-injective (e, x) (e', ok tt) h in
    subst (λ d. AllAbsent d ids) (ap (λ q. q.0) p) (k (ap (λ q. q.1) p))

all-AllGone :
    (e : Engine) (legs : List Leg)
    → all (λ (l : Leg). l.transferred) legs ≡ true
    → MarkedGone e legs
    → AllGone e legs
all-AllGone e [] h m = tt
all-AllGone e (leg ∷ legs) h (m, ms) = (m ground arith, all-AllGone e legs (ground arith) ms)

abbrev ClosedWell : List Leg → Close → Type 0
ClosedWell legs (decided e x) = x ≡ ok tt → AllGone e legs
ClosedWell legs (again e s) = MarkedGone e legs

close_round-ClosedWell :
    (deadline : ℕ) (e : Engine) (legs : List Leg) (s : Option ℕ) (now : ℕ)
    → MarkedGone e legs
    → ClosedWell legs (close_round deadline e legs s now)
unfolding close_round
close_round-ClosedWell deadline e legs s now m =
    elim (Bool-cases (all (λ (l : Leg). l.transferred) legs)) [
      | inl t ↦ rw t (λ h. all-AllGone e legs t m)
      | inr t ↦ elim (Bool-cases (any (λ (l : Leg). l.transferred) legs)) [
        | inl u ↦ elim (Bool-cases (leb (settle_from s now) now)) [
          | inl w ↦ rw (t, u, w) (λ h. end_left_up-AllGone e legs m)
          | inr w ↦ rw (t, u, w) m
        ]
        | inr u ↦ elim (Bool-cases (leb deadline now)) [
          | inl w ↦ rw (t, u, w) (λ h. absurd cc)
          | inr w ↦ rw (t, u, w) m
        ]
      ]
    ]

transfer_rounds-GoneOnOk :
    (fuel : ℕ) (r : Rounds) (deadline i : ℕ) (e : Engine) (legs : List Leg) (s : Option ℕ)
    → ((n : ℕ) (e : Engine) → Forgets e (r.sleep n e))
    → ((n m : ℕ) (e : Engine) → Forgets e ((r.reply n m).meanwhile e))
    → MarkedGone e legs
    → GoneOnOk (transfer_rounds fuel r deadline i e legs s) (leg_ids legs)
unfolding transfer_rounds
transfer_rounds-GoneOnOk zero r deadline i e legs s ks kr m = λ e' h. absurd cc
transfer_rounds-GoneOnOk (suc fuel) r deadline i e legs s ks kr m =
    let e1 = r.sleep i e in
    let turned = legs_turn e1 [] legs (r.reply i) in
    let (f, same, m1, a) =
      legs_turn-Rounded e1 [] legs (r.reply i) (kr i) tt
        (MarkedGone-Forgets e e1 legs (ks i e) m) in
    elim (Result-cases (Auth.token e1.auth)) [
      | inl (x, n) ↦
          rw (n, transfer_rounds) (GoneOnOk-some e1 (err x) (leg_ids legs) (λ h. absurd cc))
      | inr (t, n) ↦ elim (Option-cases turned.2) [
        | inr (x, v) ↦
            rw (n, transfer_rounds, v)
              (GoneOnOk-some turned.0 x (leg_ids legs) (λ h. a (rw (v, h))))
        | inl v ↦
            let close = close_round deadline turned.0 turned.1 s (r.now i) in
            let well = close_round-ClosedWell deadline turned.0 turned.1 s (r.now i) m1 in
            elim (Close-cases close) [
              | inl (e', x, c) ↦
                  rw (n, transfer_rounds, v, c)
                    (GoneOnOk-some e' x (leg_ids legs) (λ h.
                      subst (λ ids. AllAbsent e' ids) same
                        (subst (λ d. ClosedWell turned.1 d) c well h)))
              | inr (e', s', c) ↦
                  rw (n, transfer_rounds, v, c)
                    (subst
                      (λ ids. GoneOnOk (transfer_rounds fuel r deadline (suc i) e' turned.1 s') ids)
                      same
                      (transfer_rounds-GoneOnOk fuel r deadline (suc i) e' turned.1 s' ks kr
                        (subst (λ x. ClosedWell turned.1 x) c well)))
            ]
      ]
    ]

-- Where the wait for a transfer's outcome returns success, every call of the transfer is gone from
-- the call map, provided that what other threads do meanwhile brings no call back that is gone,
-- and that the calls that are marked transferred at the start are gone.
pub await_transfer_outcome-AllGone :
    (fuel : ℕ) (r : Rounds) (start : ℕ) (e e' : Engine) (legs : List Leg)
    → ((n : ℕ) (e : Engine) → Forgets e (r.sleep n e))
    → ((n m : ℕ) (e : Engine) → Forgets e ((r.reply n m).meanwhile e))
    → MarkedGone e legs
    → await_transfer_outcome fuel r start e legs ≡ some (e', ok tt)
    → AllGone e' legs
unfolding await_transfer_outcome
await_transfer_outcome-AllGone fuel r start e e' legs ks kr m h =
    transfer_rounds-GoneOnOk fuel r (start + transfer_timeout) 0 e legs none ks kr m e' h
