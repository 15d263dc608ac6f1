-- ===== src/Engine/Steps/Taps.antt =====
-- About src/lib.rs: the steps of the engine's threads leave the captures that its calls feed alone. In
-- what follows `P` says of a call, by its id, which capture it may feed.
use aria_mobile_core.Base.{
  ℕ, ◌≡◌, refl, sym, subst, Bool, true, false, not, ◌||◌, if◌then◌else◌, String, str_eq, eq_iff,
  Option, none, some, inl, inr, arith, Bool-cases, Option-cases,
}
use aria_mobile_core.Base.Dict.{Dict, get, contains_key, insert, remove, get-insert, get-remove}
use aria_mobile_core.Types.{EndReason}
use aria_mobile_core.Media
use aria_mobile_core.Media.{MediaLib, MobileMediaSession, tap_of}
use aria_mobile_core.Engine.State.{ActiveCallState, Engine}
use aria_mobile_core.Engine.Calls.{apply_hold, hold_media, hold_others, end_call_locally}
use aria_mobile_core.Engine.Calls.End.{end_call_locally-calls}
use aria_mobile_core.Engine.Controls.{
  mute_call, mute_media, set_mute, set_hold, swap_calls, hold_and_report, hold_and_report_change,
}
use aria_mobile_core.Engine.Controls.Active.{get-hold_others, change_calls}

hold-tap : (b : Bool) (m : Option MobileMediaSession) → tap_of (hold_media b m) ≡ tap_of m
unfolding Media.set_hold
hold-tap b none = refl
hold-tap b (some m) = refl

mute-tap : (b : Bool) (m : Option MobileMediaSession) → tap_of (mute_media b m) ≡ tap_of m
unfolding Media.set_mute
mute-tap b none = refl
mute-tap b (some m) = refl

apply_hold-tap :
    (c : ActiveCallState) (b : Bool) → tap_of ((apply_hold c b).0).media ≡ tap_of c.media
unfolding apply_hold
apply_hold-tap c b = hold-tap b c.media

module _ (P : String → Option ℕ → Type 0) where
  abbrev pub Taps : Dict ActiveCallState → Type 0
  Taps calls = (j : String) (c : ActiveCallState) → get j calls ≡ some c → P j (tap_of c.media)

  pub remove-Taps : (id : String) (m : Dict ActiveCallState) → Taps m → Taps (remove id m)
  remove-Taps id m h j c p = h j c (ground (arith, get-remove id j m))

  pub insert-Taps :
      (id : String) (c : ActiveCallState) (m : Dict ActiveCallState)
      → P id (tap_of c.media)
      → Taps m
      → Taps (insert id c m)
  insert-Taps id c m q h j d p = elim (Bool-cases (str_eq id j)) [
    | inl t ↦
        let same : c ≡ d = ground (arith, get-insert id j c m) in
        rw (← same) (subst (λ i. P i (tap_of c.media)) ((eq_iff id j).0 t) q)
    | inr t ↦ h j d (ground (arith, get-insert id j c m))
  ]

  pub hold_others-Taps : (e : Engine) (id : String) → Taps e.calls → Taps (hold_others e id).calls
  hold_others-Taps e id h j c p = elim (Option-cases (get j e.calls)) [
    | inl n ↦ ground (arith, get-hold_others e id j)
    | inr (d, n) ↦ elim (Bool-cases (str_eq j id)) [
      | inl t ↦ h j c (ground (arith, get-hold_others e id j))
      | inr t ↦
          let same : (apply_hold d true).0 ≡ c = ground (arith, get-hold_others e id j) in
          rw (← same) (held d n)
    ]
  ]
    where
      held :
          (d : ActiveCallState)
          → get j e.calls ≡ some d
          → P j (tap_of ((apply_hold d true).0).media)
      held d n = subst (P j) (sym (apply_hold-tap d true)) (h j d n)

  pub set_mute-Taps :
      (e : Engine) (id : String) (b : Bool) → Taps e.calls → Taps (set_mute e id b).0.calls
  unfolding set_mute
  set_mute-Taps e id b h = elim (Option-cases (get id e.calls)) [
    | inl n ↦ rw (n, set_mute) h
    | inr (c, n) ↦
        rw (n, set_mute)
          (insert-Taps id (mute_call c b) e.calls
            (subst (P id) (sym (mute-tap b c.media)) (h id c n)) h)
  ]

  hold_and_report-Taps :
      (e : Engine) (id : String) (b : Bool) → Taps e.calls → Taps (hold_and_report e id b).calls
  hold_and_report-Taps e id b h = elim (Option-cases (get id e.calls)) [
    | inl n ↦ rw (n, hold_and_report) h
    | inr (c, n) ↦
        rw (n, hold_and_report)
          (insert-Taps id (apply_hold c b).0 e.calls
            (subst (P id) (sym (apply_hold-tap c b)) (h id c n)) h)
  ]

  pub set_hold-Taps :
      (e : Engine) (id : String) (b : Bool) → Taps e.calls → Taps (set_hold e id b).0.calls
  unfolding set_hold
  set_hold-Taps e id b h = elim (Bool-cases (contains_key id e.calls)) [
    | inr t ↦ rw t h
    | inl t ↦ rw t (by_state b)
  ]
    where
      by_state : (b : Bool) → Taps (hold_and_report (if b then e else hold_others e id) id b).calls
      by_state true = hold_and_report-Taps e id true h
      by_state false = hold_and_report-Taps (hold_others e id) id false (hold_others-Taps e id h)

  pub swap_calls-Taps : (e : Engine) (a b : String) → Taps e.calls → Taps (swap_calls e a b).0.calls
  unfolding swap_calls
  swap_calls-Taps e a b h = elim (Bool-cases (str_eq a b)) [
    | inl s ↦ rw s h
    | inr s ↦
        rw s (elim (Bool-cases (not (contains_key a e.calls) || not (contains_key b e.calls))) [
          | inl t ↦ rw t h
          | inr t ↦ rw t (
              rw (change_calls (hold_others (hold_and_report_change e a true) b) b false) (
                hold_and_report-Taps _ b false (
                  hold_others-Taps _ b
                    (rw (change_calls e a true) (hold_and_report-Taps e a true h)))))
        ])
  ]

  pub end_call_locally-Taps :
      (e : Engine) (id : String) (r : EndReason)
      → Taps e.calls
      → Taps (end_call_locally e id r).0.calls
  end_call_locally-Taps e id r h = rw (end_call_locally-calls e id r) (remove-Taps id e.calls h)
