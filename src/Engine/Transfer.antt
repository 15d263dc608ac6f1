-- ===== src/Engine/Transfer.antt =====
-- src/lib.rs, call transfer: the checks, the request, and the loop that follows the outcome.
pub mod Loop
pub mod Outcome
pub mod Success
use aria_mobile_core.Base.{
  ℕ, zero, suc, ◌+◌, leb, ◌==◌, if◌then◌else◌, any, all, Bool, true, false, not, ◌||◌, ◌&&◌, String,
  str_eq, is_empty, trim, codes, concat, decimal, Option, none, some, List, [], ◌∷◌, ◌++◌, map,
  length, ltb,
}
use Prim.Native.Nat.{min}
use aria_mobile_core.Base.Dict.{get}
use aria_mobile_core.Types.{
  CallStatusResponse, EndReason, MobileError, Result, ok, err, from_gateway, is_transferred,
}
use aria_mobile_core.Auth
use aria_mobile_core.Gateway.Routes.{Route}
use aria_mobile_core.Engine.State.{ActiveCallState, Await, Engine, Task, spawn}
use aria_mobile_core.Engine.Calls.{end_call_locally}
use aria_mobile_core.Engine.Polls.{is_gone}

abbrev pub is_header_breaker : ℕ → Bool
is_header_breaker c = c == 13 || (c == 10 || (c == b'<' || c == b'>'))

unfoldable pub validate_transfer_target : String → Result (Unit {0})
validate_transfer_target target =
    if is_empty (trim target)
    then err MobileError.invalid_target
    else if any is_header_breaker (codes target)
    then err MobileError.invalid_target
    else ok tt

-- A `TransferLeg` with its `GoneDetector` and its place in `transferred`.
pub record Leg : Type 0 where
  pub call_id : String
  pub call_token : String
  pub route : Route
  pub streak : ℕ
  pub transferred : Bool

abbrev pub transfer_settle : ℕ
transfer_settle = 5000

abbrev pub transfer_timeout : ℕ
transfer_timeout = 35000

unfoldable pub end_all : Engine → List Leg → Engine
end_all e [] = e
end_all e (leg ∷ legs) = end_all (end_call_locally e leg.call_id EndReason.transferred).0 legs

abbrev code_text : Option ℕ → String
code_text none = "unknown"
code_text (some c) = decimal 5 c

abbrev pub failed_text : Option ℕ → Bool → String
failed_text code several = concat "the transfer failed (SIP " (
    concat (code_text code)
      (concat "); " (if several then "the calls are still up" else "the call is still up")))

abbrev pub is_408 : Option ℕ → Bool
is_408 none = false
is_408 (some c) = c == 408

-- An active call's `transfer` field: whether it decides the transfer, and how.
abbrev pub transfer_verdict :
    Engine → List Leg → CallStatusResponse → Option String → Engine × Option (Result (Unit {0}))
transfer_verdict e legs status none = (end_all e legs, some (ok tt))
transfer_verdict e legs status (some t) =
    if str_eq t "failed"
    then (if is_408 status.transfer_code then (e, some (err MobileError.timeout)) else (
      e,
      some (err (MobileError.call_failed (failed_text status.transfer_code (ltb 1 (length legs))))),
    ))
    else (e, none)

abbrev pub leg_gone :
    Engine → Bool → Leg → CallStatusResponse → Engine × Leg × Option (Result (Unit {0}))
leg_gone e succeeded leg status =
    let reason : EndReason =
      if succeeded
      then EndReason.transferred
      else from_gateway status.reason EndReason.remote_hangup in
    let e' = (end_call_locally e leg.call_id reason).0 in
    if is_transferred reason
    then (e', record leg { transferred = true }, none)
    else (e', leg, some (err MobileError.invalid_state))

abbrev pub leg_answered :
    Engine → List Leg → Bool → Leg → CallStatusResponse → Engine × Leg × Option (Result (Unit {0}))
leg_answered e legs succeeded leg status =
    let (streak, gone) = is_gone leg.streak status.status in
    let leg' : Leg = record leg { streak = streak } in
    if gone
    then leg_gone e succeeded leg' status
    else if not (str_eq status.status "active") || succeeded
    then (e, leg', none)
    else let (e', verdict) = transfer_verdict e legs status status.transfer in (e', leg', verdict)

abbrev pub leg_reply :
    Engine → List Leg → Leg → Result CallStatusResponse → Engine × Leg × Option (Result (Unit {0}))
leg_reply e legs leg (err MobileError.authentication_error) =
    (e, leg, some (err MobileError.authentication_error))
leg_reply e legs leg (err x) = (e, leg, none)
leg_reply e legs leg (ok status) =
    leg_answered e legs (any (λ (l : Leg). l.transferred) legs) leg status

-- One call of a round. The third part is the result, where the transfer is decided.
unfoldable pub leg_turn :
    Engine
    → List Leg
    → Leg
    → Await (Result CallStatusResponse)
    → Engine × Leg × Option (Result (Unit {0}))
unfolding is_gone
leg_turn e legs leg reply =
    if leg.transferred then (e, leg, none) else leg_reply (reply.meanwhile e) legs leg reply.answer

-- The calls of a round in order: `done` have been polled, the list is still to be.
unfoldable pub legs_turn :
    Engine
    → List Leg
    → List Leg
    → (ℕ → Await (Result CallStatusResponse))
    → Engine × List Leg × Option (Result (Unit {0}))
unfolding leg_turn
legs_turn e done [] reply = (e, done, none)
legs_turn e done (leg ∷ rest) reply =
    let (e', leg', verdict) = leg_turn e (done ++ leg ∷ rest) leg (reply 0) in
    let more = legs_turn e' (done ++ leg' ∷ []) rest (λ n. reply (suc n)) in
    elim verdict [ some r ↦ (e', done ++ leg' ∷ rest, some r) | none ↦ more ]

-- Ends a call that the gateway still reports up, here and at the gateway.
unfoldable pub end_transferred_leg : Engine → Leg → Engine
end_transferred_leg e leg =
    let (e', ended) = end_call_locally e leg.call_id EndReason.transferred in
    if ended then spawn e' (Task.hang_up leg.route leg.call_id leg.call_token) else e'

unfoldable pub end_left_up : Engine → List Leg → Engine
unfolding end_transferred_leg
end_left_up e [] = e
end_left_up e (leg ∷ legs) =
    end_left_up (if leg.transferred then e else end_transferred_leg e leg) legs

-- What the rounds meet: the sleep before each, the answers in it, and the clock at its end.
pub record Rounds : Type 0 where
  pub sleep : ℕ → Engine → Engine
  pub reply : ℕ → ℕ → Await (Result CallStatusResponse)
  pub now : ℕ → ℕ

-- The end of a round: a result, or the settle time to go on with.
abbrev pub settle_from : Option ℕ → ℕ → ℕ
settle_from none now = now + min transfer_settle transfer_timeout
settle_from (some t) now = t

pub data Close : Type 0 where
  decided : Engine → Result (Unit {0}) → Close
  again : Engine → Option ℕ → Close

unfoldable pub close_round : ℕ → Engine → List Leg → Option ℕ → ℕ → Close
unfolding end_left_up
close_round deadline e legs settle_by now =
    if all (λ (l : Leg). l.transferred) legs
    then decided e (ok tt)
    else if any (λ (l : Leg). l.transferred) legs
    then (if leb (settle_from settle_by now) now
        then decided (end_left_up e legs) (ok tt)
        else again e (some (settle_from settle_by now)))
    else if leb deadline now
    then decided e (err MobileError.timeout)
    else again e settle_by

-- `await_transfer_outcome` from round `i` on, on fuel; `none` means that the fuel ran out.
unfoldable pub transfer_rounds :
    ℕ → Rounds → ℕ → ℕ → Engine → List Leg → Option ℕ → Option (Engine × Result (Unit {0}))
unfolding legs_turn close_round
transfer_rounds zero r deadline i e legs settle_by = none
transfer_rounds (suc fuel) r deadline i e legs settle_by =
    let e1 = r.sleep i e in
    let turned = legs_turn e1 [] legs (r.reply i) in
    elim (Auth.token e1.auth) [
      | err x ↦ some (e1, err x)
      | ok token ↦ elim turned.2 [
        | some result ↦ some (turned.0, result)
        | none ↦ elim (close_round deadline turned.0 turned.1 settle_by (r.now i)) [
          | decided e' result ↦ some (e', result)
          | again e' settle ↦ transfer_rounds fuel r deadline (suc i) e' turned.1 settle
        ]
      ]
    ]

abbrev pub new_leg : String → String → Route → Leg
new_leg call_id call_token route = record {
  call_id = call_id;
  call_token = call_token;
  route = route;
  streak = 0;
  transferred = false;
}

unfoldable pub await_transfer_outcome :
    ℕ → Rounds → ℕ → Engine → List Leg → Option (Engine × Result (Unit {0}))
unfolding transfer_rounds
await_transfer_outcome fuel r start e legs =
    transfer_rounds fuel r (start + transfer_timeout) 0 e legs none

-- A call that can be transferred: it is in the call map, with a token.
abbrev token_of : Option ActiveCallState → Option (String × Route)
token_of none = none
token_of (some c) = elim c.call_token [ none ↦ none | some t ↦ some (t, c.route) ]

-- `refer` is the gateway's answer to the REFER; what follows starts at the time `start`.
abbrev follow :
    ℕ
    → Rounds
    → ℕ
    → Engine
    → List Leg
    → Await (Result (Unit {0}))
    → Option (Engine × Result (Unit {0}))
follow fuel r start e legs refer = elim (Auth.token e.auth) [
  | err x ↦ some (e, err x)
  | ok token ↦ elim refer.answer [
    | err x ↦ some (refer.meanwhile e, err x)
    | ok _ ↦ await_transfer_outcome fuel r start (refer.meanwhile e) legs
  ]
]

unfoldable pub transfer_call :
    ℕ
    → Rounds
    → ℕ
    → Engine
    → String
    → String
    → Await (Result (Unit {0}))
    → Option (Engine × Result (Unit {0}))
unfolding validate_transfer_target await_transfer_outcome
transfer_call fuel r start e call_id target refer = elim (validate_transfer_target (trim target)) [
  | err x ↦ some (e, err x)
  | ok _ ↦ elim (token_of (get call_id e.calls)) [
    | none ↦ some (e, err MobileError.invalid_state)
    | some (token, route) ↦ follow fuel r start e (new_leg call_id token route ∷ []) refer
  ]
]

unfoldable pub transfer_attended :
    ℕ
    → Rounds
    → ℕ
    → Engine
    → String
    → String
    → Await (Result (Unit {0}))
    → Option (Engine × Result (Unit {0}))
unfolding await_transfer_outcome
transfer_attended fuel r start e call_id consult_call_id refer =
    if str_eq call_id consult_call_id
    then some (e, err MobileError.invalid_state)
    else elim (token_of (get call_id e.calls)) [
      | none ↦ some (e, err MobileError.invalid_state)
      | some (token, route) ↦ elim (token_of (get consult_call_id e.calls)) [
        | none ↦ some (e, err MobileError.invalid_state)
        | some (token', route') ↦
            follow fuel r start e
              (new_leg call_id token route ∷ new_leg consult_call_id token' route' ∷ []) refer
      ]
    ]
