-- ===== src/Types/Reasons.antt =====
-- About src/types.rs, `EndReason::from_gateway`.
use aria_mobile_core.Base.{◌≡◌, ◌≢◌, Option, none, some, String, arith, eq_iff, ◌↔◌}
use aria_mobile_core.Types.{EndReason, from_gateway}

-- With another default, a reason is taken for `transferred` exactly when the gateway gives that
-- text.
pub from_gateway-transferred :
    (r : Option String) (fallback : EndReason)
    → fallback ≢ EndReason.transferred
    → (from_gateway r fallback ≡ EndReason.transferred) ↔ (r ≡ some "transferred")
unfolding from_gateway
from_gateway-transferred none fallback h = (ground arith, ground arith)
from_gateway-transferred (some r) fallback h =
    (ground (arith, eq_iff r "transferred"), ground (arith, eq_iff r "transferred"))
