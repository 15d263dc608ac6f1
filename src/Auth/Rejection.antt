-- ===== src/Auth/Rejection.antt =====
-- About src/auth.rs, `report_rejection`: which 401s the app is told of.
use aria_mobile_core.Base.{
  ℕ, suc, ◌<◌, ◌≡◌, refl, ◌==◌, if◌then◌else◌, any, true, false, List, [], ◌∷◌, String, arith,
}
use aria_mobile_core.Auth.{GatewayAuth, set, report_rejection}

-- Reports for a list of generations, in order: how many are passed on to the app.
pub reported : GatewayAuth → List ℕ → ℕ
reported a [] = 0
reported a (g ∷ gs) =
    let rest = reported (report_rejection a g).0 gs in
    if (report_rejection a g).1 then suc rest else rest

-- After the current token's rejection has been reported, no 401 is.
reported_after : (a : GatewayAuth) (gs : List ℕ) → a.rejection_reported ≡ true → reported a gs ≡ 0
unfolding reported report_rejection
reported_after a [] h = refl
reported_after a (g ∷ gs) h = ground (arith, reported_after a gs h)

-- Where the current token's rejection has not been reported, one of the 401s that come in is
-- reported if any is for the current token's generation, and none otherwise.
pub reported-once :
    (a : GatewayAuth) (gs : List ℕ)
    → a.rejection_reported ≡ false
    → reported a gs ≡ (if any (λ g. a.generation == g) gs then 1 else 0)
unfolding reported report_rejection
reported-once a [] h = refl
reported-once a (g ∷ gs) h =
    ground
      (arith, reported-once a gs h, reported_after (record a { rejection_reported = true }) gs refl)

-- A 401 for a token that has been replaced is not reported, and the new token's first one is.
pub report_rejection-set :
    (a : GatewayAuth) (t : String)
    → a.generation < 18446744073709551616
    → ((report_rejection (set a t) a.generation).1 ≡ false)
      × ((report_rejection (set a t) (set a t).generation).1 ≡ true)
unfolding report_rejection set
report_rejection-set a t h = ground arith
