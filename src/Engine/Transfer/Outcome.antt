-- ===== src/Engine/Transfer/Outcome.antt =====
-- About src/lib.rs, `await_transfer_outcome`: what one round does to the call map.
use aria_mobile_core.Base.{
  ℕ, suc, ◌≡◌, refl, ap, subst, ◌∙◌, if◌then◌else◌, any, Bool, true, false, not, ◌||◌, String,
  str_eq, eq_refl, Option, none, some, List, [], ◌∷◌, ◌++◌, append-nil, append_assoc, inl, inr,
  arith, Bool-cases, Option-cases,
}
use aria_mobile_core.Base.Dict.{get, get-remove}
use aria_mobile_core.Types.{
  CallStatusResponse, EndReason, MobileError, Result, ok, err, from_gateway, is_transferred,
}
use aria_mobile_core.Engine.State.{Await, Engine}
use aria_mobile_core.Engine.Calls.{end_call_locally}
use aria_mobile_core.Engine.Calls.End.{end_call_locally-calls}
use aria_mobile_core.Engine.Polls.{is_gone}
use aria_mobile_core.Engine.Transfer.{
  Leg, end_all, end_transferred_leg, end_left_up, transfer_verdict, is_408, leg_reply, leg_gone,
  leg_answered, leg_turn, legs_turn,
}

abbrev pub IsAbsent : Engine → String → Type 0
IsAbsent e id = get id e.calls ≡ none

-- Calls that are gone stay gone.
abbrev pub Forgets : Engine → Engine → Type 0
Forgets e e' = (id : String) → IsAbsent e id → IsAbsent e' id

abbrev pub leg_ids : List Leg → List String
leg_ids [] = []
leg_ids (leg ∷ legs) = leg.call_id ∷ leg_ids legs

abbrev pub AllAbsent : Engine → List String → Type 0
AllAbsent e [] = Unit
AllAbsent e (id ∷ ids) = IsAbsent e id × AllAbsent e ids

abbrev pub AllGone : Engine → List Leg → Type 0
AllGone e legs = AllAbsent e (leg_ids legs)

-- The legs that are marked transferred are gone.
abbrev pub MarkedGone : Engine → List Leg → Type 0
MarkedGone e [] = Unit
MarkedGone e (leg ∷ legs) = (leg.transferred ≡ true → IsAbsent e leg.call_id) × MarkedGone e legs

AllGone-Forgets :
    (e e' : Engine) (legs : List Leg) → Forgets e e' → AllGone e legs → AllGone e' legs
AllGone-Forgets e e' [] f h = tt
AllGone-Forgets e e' (leg ∷ legs) f (h, hs) = (f leg.call_id h, AllGone-Forgets e e' legs f hs)

pub MarkedGone-Forgets :
    (e e' : Engine) (legs : List Leg) → Forgets e e' → MarkedGone e legs → MarkedGone e' legs
MarkedGone-Forgets e e' [] f h = tt
MarkedGone-Forgets e e' (leg ∷ legs) f (h, hs) =
    (λ t. f leg.call_id (h t), MarkedGone-Forgets e e' legs f hs)

end_call_locally-Forgets :
    (e : Engine) (k : String) (r : EndReason) → Forgets e (end_call_locally e k r).0
end_call_locally-Forgets e k r id h =
    rw (end_call_locally-calls e k r, get-remove k id e.calls) ground (arith, h)

end_call_locally-IsAbsent :
    (e : Engine) (k : String) (r : EndReason) → IsAbsent (end_call_locally e k r).0 k
end_call_locally-IsAbsent e k r =
    rw (end_call_locally-calls e k r, get-remove k k e.calls, eq_refl k)

end_all-Forgets : (e : Engine) (legs : List Leg) → Forgets e (end_all e legs)
unfolding end_all
end_all-Forgets e [] id h = h
end_all-Forgets e (leg ∷ legs) id h =
    end_all-Forgets (end_call_locally e leg.call_id EndReason.transferred).0 legs id
      (end_call_locally-Forgets e leg.call_id EndReason.transferred id h)

end_all-AllGone : (e : Engine) (legs : List Leg) → AllGone (end_all e legs) legs
unfolding end_all
end_all-AllGone e [] = tt
end_all-AllGone e (leg ∷ legs) =
    let e' = (end_call_locally e leg.call_id EndReason.transferred).0 in
    (
      end_all-Forgets e' legs leg.call_id
          (end_call_locally-IsAbsent e leg.call_id EndReason.transferred),
      end_all-AllGone e' legs,
    )

end_transferred_leg-calls :
    (e : Engine) (leg : Leg)
    → (end_transferred_leg e leg).calls
      ≡ (end_call_locally e leg.call_id EndReason.transferred).0.calls
unfolding end_transferred_leg
end_transferred_leg-calls e leg =
    elim (Bool-cases (end_call_locally e leg.call_id EndReason.transferred).1) [
      | inl t ↦ rw t
      | inr t ↦ rw t
    ]

-- What `end_left_up` does for one leg.
abbrev left_step : Engine → Leg → Engine
left_step e leg = if leg.transferred then e else end_transferred_leg e leg

left_step-Forgets : (e : Engine) (leg : Leg) → Forgets e (left_step e leg)
left_step-Forgets e leg id h = by_mark leg.transferred
  where
    by_mark : (b : Bool) → IsAbsent (if b then e else end_transferred_leg e leg) id
    by_mark true = h
    by_mark false =
        rw (end_transferred_leg-calls e leg)
          (end_call_locally-Forgets e leg.call_id EndReason.transferred id h)

left_step-IsAbsent :
    (e : Engine) (leg : Leg)
    → (leg.transferred ≡ true → IsAbsent e leg.call_id)
    → IsAbsent (left_step e leg) leg.call_id
left_step-IsAbsent e leg h = by_mark leg.transferred refl
  where
    by_mark :
        (b : Bool)
        → leg.transferred ≡ b
        → IsAbsent (if b then e else end_transferred_leg e leg) leg.call_id
    by_mark true t = h t
    by_mark false t =
        rw (end_transferred_leg-calls e leg)
          (end_call_locally-IsAbsent e leg.call_id EndReason.transferred)

end_left_up-Forgets : (e : Engine) (legs : List Leg) → Forgets e (end_left_up e legs)
unfolding end_left_up
end_left_up-Forgets e [] id h = h
end_left_up-Forgets e (leg ∷ legs) id h =
    end_left_up-Forgets (left_step e leg) legs id (left_step-Forgets e leg id h)

pub end_left_up-AllGone :
    (e : Engine) (legs : List Leg) → MarkedGone e legs → AllGone (end_left_up e legs) legs
unfolding end_left_up
end_left_up-AllGone e [] h = tt
end_left_up-AllGone e (leg ∷ legs) (h, hs) =
    let e' = left_step e leg in
    (
      end_left_up-Forgets e' legs leg.call_id (left_step-IsAbsent e leg h),
      end_left_up-AllGone e' legs (MarkedGone-Forgets e e' legs (left_step-Forgets e leg) hs),
    )

-- What one leg's turn leaves: calls stay gone, the leg is gone if it is marked, all are gone on success.
abbrev Turned : Engine → List Leg → Leg → Engine × Leg × Option (Result (Unit {0})) → Type 0
Turned e legs leg t =
    Forgets e t.0
    × (t.1.call_id ≡ leg.call_id)
    × (t.1.transferred ≡ true
        → (leg.transferred ≡ true → IsAbsent e leg.call_id)
        → IsAbsent t.0 leg.call_id)
    × (t.2 ≡ some (ok tt) → AllGone t.0 legs)

leg_gone-Turned :
    (e : Engine) (legs : List Leg) (b : Bool) (leg : Leg) (status : CallStatusResponse)
    → Turned e legs leg (leg_gone e b leg status)
leg_gone-Turned e legs b leg status =
    let reason : EndReason =
      if b then EndReason.transferred else from_gateway status.reason EndReason.remote_hangup in
    elim (Bool-cases (is_transferred reason)) [
      | inl t ↦ rw t (
        end_call_locally-Forgets e leg.call_id reason,
        refl,
        λ _ _. end_call_locally-IsAbsent e leg.call_id reason,
        λ h. cc,
      )
      | inr t ↦ rw t (
        end_call_locally-Forgets e leg.call_id reason,
        refl,
        λ _ _. end_call_locally-IsAbsent e leg.call_id reason,
        λ h. cc,
      )
    ]

transfer_verdict-Turned :
    (e : Engine) (legs : List Leg) (leg : Leg) (status : CallStatusResponse) (o : Option String)
    → leg.transferred ≡ false
    → let v = transfer_verdict e legs status o in Turned e legs leg (v.0, leg, v.1)
transfer_verdict-Turned e legs leg status none n =
    (end_all-Forgets e legs, refl, λ t _. absurd cc, λ _. end_all-AllGone e legs)
transfer_verdict-Turned e legs leg status (some s) n = elim (Bool-cases (str_eq s "failed")) [
  | inl t ↦ elim (Bool-cases (is_408 status.transfer_code)) [
    | inl u ↦ rw (t, u) (λ id h. h, refl, λ m _. absurd cc, λ h. absurd cc)
    | inr u ↦ rw (t, u) (λ id h. h, refl, λ m _. absurd cc, λ h. absurd cc)
  ]
  | inr t ↦ rw t (λ id h. h, refl, λ m _. absurd cc, λ h. absurd cc)
]

leg_answered-Turned :
    (e : Engine) (legs : List Leg) (b : Bool) (leg : Leg) (status : CallStatusResponse)
    → leg.transferred ≡ false
    → Turned e legs leg (leg_answered e legs b leg status)
leg_answered-Turned e legs b leg status n =
    let g = is_gone leg.streak status.status in
    let leg' : Leg = record leg { streak = g.0 } in
    elim (Bool-cases g.1) [
      | inl t ↦ rw (t, leg_answered) (leg_gone-Turned e legs b leg' status)
      | inr t ↦ elim (Bool-cases (not (str_eq status.status "active") || b)) [
        | inl u ↦ rw (t, leg_answered, u) (λ id h. h, refl, λ m _. absurd cc, λ h. absurd cc)
        | inr u ↦
            rw (t, leg_answered, u) (transfer_verdict-Turned e legs leg' status status.transfer n)
      ]
    ]

leg_turn-Turned :
    (e : Engine) (legs : List Leg) (leg : Leg) (reply : Await (Result CallStatusResponse))
    → ((e : Engine) → Forgets e (reply.meanwhile e))
    → Turned e legs leg (leg_turn e legs leg reply)
unfolding leg_turn
leg_turn-Turned e legs leg reply k = by_mark leg.transferred refl reply.answer
  where
    by_mark :
        (b : Bool)
        → leg.transferred ≡ b
        → (x : Result CallStatusResponse)
        → Turned e legs leg (if b then (e, leg, none) else leg_reply (reply.meanwhile e) legs leg x)
    by_mark true t x = (λ id h. h, refl, λ m h. h t, λ h. absurd cc)
    by_mark false t (err MobileError.authentication_error) =
        (k e, refl, λ m _. absurd cc, λ h. absurd cc)
    by_mark false t (err x) = (k e, refl, λ m _. absurd cc, λ h. absurd cc)
    by_mark false t (ok status) =
        let e1 = reply.meanwhile e in
        let (f, i, m, a) =
          leg_answered-Turned e1 legs (any (λ (l : Leg). l.transferred) legs) leg status t in
        (λ id h. f id (k e id h), i, λ h _. m h (λ u. absurd cc), a)

leg_ids-append : (xs ys : List Leg) → leg_ids (xs ++ ys) ≡ leg_ids xs ++ leg_ids ys
leg_ids-append [] ys = refl
leg_ids-append (x ∷ xs) ys = rw (leg_ids-append xs ys)

MarkedGone-append :
    (e : Engine) (xs ys : List Leg) → MarkedGone e xs → MarkedGone e ys → MarkedGone e (xs ++ ys)
MarkedGone-append e [] ys h k = k
MarkedGone-append e (x ∷ xs) ys (h, hs) k = (h, MarkedGone-append e xs ys hs k)

-- What a round leaves of the engine and the legs that it began with.
abbrev pub Rounded : Engine → List Leg → Engine × List Leg × Option (Result (Unit {0})) → Type 0
Rounded e legs t =
    Forgets e t.0
    × (leg_ids t.1 ≡ leg_ids legs)
    × MarkedGone t.0 t.1
    × (t.2 ≡ some (ok tt) → AllGone t.0 legs)

pub legs_turn-Rounded :
    (e : Engine) (done rest : List Leg) (reply : ℕ → Await (Result CallStatusResponse))
    → ((n : ℕ) (e : Engine) → Forgets e ((reply n).meanwhile e))
    → MarkedGone e done
    → MarkedGone e rest
    → Rounded e (done ++ rest) (legs_turn e done rest reply)
unfolding legs_turn
legs_turn-Rounded e done [] reply k h hs = (λ id g. g, rw (append-nil done), h, λ x. absurd cc)
legs_turn-Rounded e done (leg ∷ rest) reply k h (m, hs) =
    let legs = done ++ leg ∷ rest in
    let t = leg_turn e legs leg (reply 0) in
    let (f, i, g, a) = leg_turn-Turned e legs leg (reply 0) (k 0) in
    let done' = done ++ t.1 ∷ [] in
    let h' : MarkedGone t.0 done = MarkedGone-Forgets e t.0 done f h in
    let m' : t.1.transferred ≡ true → IsAbsent t.0 t.1.call_id = λ u. rw i (g u m) in
    let hs' : MarkedGone t.0 rest = MarkedGone-Forgets e t.0 rest f hs in
    let same : leg_ids (done ++ t.1 ∷ rest) ≡ leg_ids legs =
      rw (leg_ids-append done (t.1 ∷ rest), leg_ids-append done (leg ∷ rest), i) in
    elim (Option-cases t.2) [
      | inr (x, v) ↦
          rw (v, legs_turn)
            (f, same, MarkedGone-append t.0 done (t.1 ∷ rest) h' (m', hs'), λ u. a (rw v u))
      | inl v ↦
          let (f2, i2, m2, a2) =
            legs_turn-Rounded t.0 done' rest (λ n. reply (suc n)) (λ n. k (suc n))
              (MarkedGone-append t.0 done (t.1 ∷ []) h' (m', tt)) hs' in
          let same' : leg_ids (done' ++ rest) ≡ leg_ids legs =
            ap leg_ids (append_assoc done (t.1 ∷ []) rest) ∙ same in
          let t2 = legs_turn t.0 done' rest (λ n. reply (suc n)) in
          rw (v, legs_turn)
            (
              λ id u. f2 id (f id u),
              i2 ∙ same',
              m2,
              λ u. subst (λ ids. AllAbsent t2.0 ids) same' (a2 u),
            )
    ]
