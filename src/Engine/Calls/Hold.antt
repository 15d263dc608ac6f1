-- ===== src/Engine/Calls/Hold.antt =====
-- About src/lib.rs, `hold_others`: the call map after it.
use aria_mobile_core.Base.{
  ◌≡◌, if◌then◌else◌, true, String, str_eq, eq_iff, [], ◌∷◌, arith, Bool-cases, inl, inr,
}
use mathlib.Core.Option
use aria_mobile_core.Base.Dict.{Dict, get}
use aria_mobile_core.Events.{Outbox, emit}
use aria_mobile_core.Engine.State.{ActiveCallState}
use aria_mobile_core.Engine.Calls.{apply_hold, hold_entries}

-- Every call but one goes on hold, and that one stays as it is, media included.
pub get-hold_entries :
    (keep j : String) (o : Outbox) (m : Dict ActiveCallState)
    → get j (hold_entries o m keep).1
      ≡ (if str_eq j keep then get j m else Option.map (λ c. (apply_hold c true).0) (get j m))
unfolding hold_entries get
get-hold_entries keep j o [] = ground arith
get-hold_entries keep j o ((i, c) ∷ m) = elim (Bool-cases (str_eq i keep)) [
  | inl e ↦
      rw e (ground (arith, eq_iff i j, eq_iff i keep, eq_iff j keep, get-hold_entries keep j o m))
  | inr e ↦ rw e (
      ground (
        arith,
        eq_iff i j,
        eq_iff i keep,
        eq_iff j keep,
        get-hold_entries keep j
            (if (apply_hold c true).1
              then (emit o ((apply_hold c true).0).events ((apply_hold c true).0).info).0
              else o)
            m,
      ))
]
