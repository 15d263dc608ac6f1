-- ===== src/Engine/Polls/Gone.antt =====
-- About src/lib.rs, `GoneDetector`: when a run of status answers means that a call is gone.
use aria_mobile_core.Base.{
  ℕ, suc, ◌≤◌, ◌<◌, ◌≡◌, ◌≢◌, ◌↔◌, ◌⊎◌, refl, if◌then◌else◌, Bool, true, String, str_eq, eq_iff,
  List, [], ◌∷◌, length, All, arith,
}
use aria_mobile_core.Engine.Polls.{is_gone}

-- A detector that has seen these statuses, the newest first.
pub streak_of : List String → ℕ
streak_of [] = 0
streak_of (s ∷ h) = (is_gone (streak_of h) s).0

abbrev pub gone_at : String → List String → Bool
gone_at s h = (is_gone (streak_of h) s).1

-- How many of the newest statuses are `unknown`, in a row.
abbrev pub unknown_run : List String → ℕ
unknown_run [] = 0
unknown_run (s ∷ h) = if str_eq s "unknown" then suc (unknown_run h) else 0

unknown_run-le : (h : List String) → unknown_run h ≤ length h
unknown_run-le [] = omega arith
unknown_run-le (s ∷ h) = ground (arith, unknown_run-le h)

streak_of-unknown_run :
    (h : List String)
    → All (λ s. s ≢ "ended") h
    → length h < 4294967296
    → streak_of h ≡ unknown_run h
unfolding streak_of is_gone
streak_of-unknown_run [] n l = refl
streak_of-unknown_run (s ∷ h) n l =
    ground (arith, eq_iff s "ended", n.0, unknown_run-le h, streak_of-unknown_run h n.1)

-- A call is gone at an `ended`, and at the third `unknown` in a row, and at no other status,
-- whatever statuses but `ended` came before, for fewer than 2^32 answers.
pub gone_at_iff :
    (s : String) (h : List String)
    → All (λ s. s ≢ "ended") h
    → suc (length h) < 4294967296
    → (gone_at s h ≡ true) ↔ ((s ≡ "ended") ⊎ (3 ≤ unknown_run (s ∷ h)))
unfolding is_gone
gone_at_iff s h n l = (
  λ g. ground (arith, eq_iff s "ended", unknown_run-le h, streak_of-unknown_run h n),
  λ g.
      ground
        (arith, eq_iff s "ended", eq_iff s "unknown", unknown_run-le h, streak_of-unknown_run h n),
)
