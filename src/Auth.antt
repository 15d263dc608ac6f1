-- ===== src/Auth.antt =====
-- src/auth.rs: the gateway token, its generation, and whether its rejection has been reported.
pub mod Rejection
use aria_mobile_core.Base.{
  ℕ, ◌+◌, ◌==◌, if◌then◌else◌, u64, Bool, true, false, not, ◌||◌, String, Option, none, some,
  is_empty,
}
use aria_mobile_core.Types.{MobileError, Result, ok, err}

pub record GatewayAuth : Type 0 where
  pub token : Option String
  pub generation : ℕ
  pub rejection_reported : Bool

-- An empty string means no token.
abbrev pub non_empty : String → Option String
non_empty t = if is_empty t then none else some t

unfoldable pub new_auth : String → GatewayAuth
new_auth t = record { token = non_empty t; generation = 0; rejection_reported = false }

unfoldable pub set : GatewayAuth → String → GatewayAuth
set a t = record {
  token = non_empty t;
  generation = u64 (a.generation + 1);
  rejection_reported = false;
}

unfoldable pub current : GatewayAuth → Option (String × ℕ)
current a = elim a.token [ none ↦ none | some t ↦ some (t, a.generation) ]

unfoldable pub snapshot : GatewayAuth → String × ℕ
snapshot a = elim a.token [ none ↦ ("", a.generation) | some t ↦ (t, a.generation) ]

unfoldable pub token : GatewayAuth → Result String
unfolding current
token a = elim (current a) [ none ↦ err MobileError.authentication_error | some p ↦ ok (p.0) ]

unfoldable pub report_rejection : GatewayAuth → ℕ → GatewayAuth × Bool
report_rejection a generation =
    if not (a.generation == generation) || a.rejection_reported
    then (a, false)
    else (record a { rejection_reported = true }, true)
