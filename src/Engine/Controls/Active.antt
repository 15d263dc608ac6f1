-- ===== src/Engine/Controls/Active.antt =====
-- About src/lib.rs, `set_mute`, `set_hold`, `swap_calls`, `end_call_locally`: calls off hold.
use aria_mobile_core.Base.{
  ◌≡◌, refl, sym, ◌∙◌, if◌then◌else◌, Bool, true, false, String, str_eq, eq_iff, some, arith,
  Bool-cases, Option-cases, inl, inr, not, ◌||◌,
}
use mathlib.Core.Option
use aria_mobile_core.Base.Dict.{Dict, get, contains_key, remove, get-insert, get-remove}
use aria_mobile_core.Types.{CallState, EndReason}
use aria_mobile_core.Media
use aria_mobile_core.Media.{MobileMediaSession}
use aria_mobile_core.Engine.State.{ActiveCallState, Engine}
use aria_mobile_core.Engine.Calls.{apply_hold, hold_others, end_call_locally}
use aria_mobile_core.Engine.Calls.End.{end_call_locally-calls}
use aria_mobile_core.Engine.Calls.Hold.{get-hold_entries}
use aria_mobile_core.Engine.Controls.{
  mute_call, set_mute, set_hold, swap_calls, put_call, hold_and_report, hold_and_report_change,
}

-- A running session is muted and held as the app is told, and the state shows the hold.
abbrev pub Agrees : ActiveCallState → Type 0
Agrees c =
    (c.info.state ≡ (if c.info.on_hold then CallState.held else CallState.connected))
    × ((m : MobileMediaSession)
        → c.media ≡ some m
        → (m.on_hold ≡ c.info.on_hold) × (m.muted ≡ c.info.muted) × (m.running ≡ true))

pub record OneActive (calls : Dict ActiveCallState) : Type 0 where
  pub one :
      (j k : String) (c d : ActiveCallState)
      → get j calls ≡ some c
      → get k calls ≡ some d
      → c.info.on_hold ≡ false
      → d.info.on_hold ≡ false
      → j ≡ k
  pub agrees : (j : String) (c : ActiveCallState) → get j calls ≡ some c → Agrees c

pub get-hold_others :
    (e : Engine) (keep j : String)
    → get j (hold_others e keep).calls ≡ (
        if str_eq j keep
        then get j e.calls
        else Option.map (λ c. (apply_hold c true).0) (get j e.calls))
unfolding hold_others
get-hold_others e keep j = get-hold_entries keep j e.outbox e.calls

pub apply_hold-Agrees : (c : ActiveCallState) (b : Bool) → Agrees c → Agrees (apply_hold c b).0
unfolding apply_hold Media.set_hold
apply_hold-Agrees c b h = (
  refl,
  λ m e. elim (Option-cases c.media) [
    | inl n ↦ ground arith
    | inr (s, n) ↦ ground (arith, h.1 s n)
  ],
)

pub apply_hold-on_hold : (c : ActiveCallState) (b : Bool) → ((apply_hold c b).0).info.on_hold ≡ b
unfolding apply_hold
apply_hold-on_hold c b = refl

-- Only one call may be off hold.
abbrev pub OnlyActive : String → Dict ActiveCallState → Type 0
OnlyActive keep calls =
    (j : String) (c : ActiveCallState)
    → get j calls ≡ some c
    → Agrees c × ((c.info.on_hold ≡ false) → j ≡ keep)

pub OnlyActive-OneActive :
    (keep : String) (calls : Dict ActiveCallState) → OnlyActive keep calls → OneActive calls
OnlyActive-OneActive keep calls h = record {
  one = λ j k c d p q s t. (h j c p).1 s ∙ sym ((h k d q).1 t);
  agrees = λ j c p. (h j c p).0;
}

pub hold_others-OnlyActive :
    (e : Engine) (keep : String) → OneActive e.calls → OnlyActive keep (hold_others e keep).calls
hold_others-OnlyActive e keep v j c p = elim (Bool-cases (str_eq j keep)) [
  | inl t ↦ (v.agrees j c (ground (arith, get-hold_others e keep j)), λ s. (eq_iff j keep).0 t)
  | inr t ↦ elim (Option-cases (get j e.calls)) [
    | inl n ↦ ground (arith, get-hold_others e keep j)
    | inr (d, n) ↦
        let same : c ≡ (apply_hold d true).0 = ground (arith, get-hold_others e keep j) in
        rw same (
          apply_hold-Agrees d true (v.agrees j d n),
          λ s. ground (arith, apply_hold-on_hold d true),
        )
  ]
]

-- A write that agrees, to the only call that may be off hold or of a call that is held.
put-OnlyActive :
    (keep id : String) (e : Engine) (c : ActiveCallState)
    → Agrees c
    → (c.info.on_hold ≡ false → id ≡ keep)
    → OnlyActive keep e.calls
    → OnlyActive keep (put_call e id c).calls
put-OnlyActive keep id e c a o h j d p = elim (Bool-cases (str_eq id j)) [
  | inl t ↦
      let same : c ≡ d = ground (arith, get-insert id j c e.calls) in
      rw (← same) (a, λ s. sym ((eq_iff id j).0 t) ∙ o s)
  | inr t ↦ h j d (ground (arith, get-insert id j c e.calls))
]

-- The same without a keeper: a write that leaves the hold state of a call as it is, or holds it.
put-OneActive :
    (id : String) (e : Engine) (b c : ActiveCallState)
    → get id e.calls ≡ some b
    → Agrees c
    → (c.info.on_hold ≡ false → b.info.on_hold ≡ false)
    → OneActive e.calls
    → OneActive (put_call e id c).calls
put-OneActive id e b c g a o v = record {
  one = λ j k d f p q s t. ground (
    arith,
    get-insert id j c e.calls,
    get-insert id k c e.calls,
    eq_iff id j,
    eq_iff id k,
    v.one j k d f,
    v.one j k b f,
    v.one j k d b,
  );
  agrees = λ j d p. elim (Bool-cases (str_eq id j)) [
    | inl t ↦ let same : c ≡ d = ground (arith, get-insert id j c e.calls) in rw (← same) a
    | inr t ↦ v.agrees j d (ground (arith, get-insert id j c e.calls))
  ];
}

hold_and_report-OnlyActive :
    (e : Engine) (id : String)
    → OnlyActive id e.calls
    → OnlyActive id (hold_and_report e id false).calls
hold_and_report-OnlyActive e id h = elim (Option-cases (get id e.calls)) [
  | inl n ↦ rw (n, hold_and_report) h
  | inr (c, n) ↦
      rw (n, hold_and_report)
        (put-OnlyActive id id e (apply_hold c false).0 (apply_hold-Agrees c false (h id c n).0)
          (λ s. refl) h)
]

hold_and_report-OneActive :
    (e : Engine) (id : String) → OneActive e.calls → OneActive (hold_and_report e id true).calls
hold_and_report-OneActive e id v = elim (Option-cases (get id e.calls)) [
  | inl n ↦ rw (n, hold_and_report) v
  | inr (c, n) ↦
      rw (n, hold_and_report)
        (put-OneActive id e c (apply_hold c true).0 n (apply_hold-Agrees c true (v.agrees id c n))
          (λ s. ground (arith, apply_hold-on_hold c true)) v)
]

-- Holding or resuming a call, whether it is there or not, keeps it so that at most one call is off
-- hold and every call's session is held and muted as reported.
pub set_hold-OneActive :
    (e : Engine) (id : String) (b : Bool) → OneActive e.calls → OneActive (set_hold e id b).0.calls
unfolding set_hold
set_hold-OneActive e id b v = elim (Bool-cases (contains_key id e.calls)) [
  | inr t ↦ rw t v
  | inl t ↦ rw t (by_state b)
]
  where
    by_state :
        (b : Bool) → OneActive (hold_and_report (if b then e else hold_others e id) id b).calls
    by_state true = hold_and_report-OneActive e id v
    by_state false =
        OnlyActive-OneActive id _
          (hold_and_report-OnlyActive (hold_others e id) id (hold_others-OnlyActive e id v))

pub change_calls :
    (e : Engine) (id : String) (b : Bool)
    → (hold_and_report_change e id b).calls ≡ (hold_and_report e id b).calls
change_calls e id b = elim (Option-cases (get id e.calls)) [
  | inl n ↦ rw (n, hold_and_report_change, hold_and_report)
  | inr (c, n) ↦
      rw (n, hold_and_report_change, hold_and_report)
        (elim (Bool-cases (apply_hold c b).1) [ inl t ↦ rw t | inr t ↦ rw t ])
]

-- Swapping two calls, whether they are there or not, keeps it so that at most one call is off hold
-- and every call's session is held and muted as reported.
pub swap_calls-OneActive :
    (e : Engine) (a h : String) → OneActive e.calls → OneActive (swap_calls e a h).0.calls
unfolding swap_calls
swap_calls-OneActive e a h v = elim (Bool-cases (str_eq a h)) [
  | inl s ↦ rw s v
  | inr s ↦ rw s (elim (Bool-cases (not (contains_key a e.calls) || not (contains_key h e.calls))) [
    | inl t ↦ rw t v
    | inr t ↦ rw t (
        rw (change_calls (hold_others (hold_and_report_change e a true) h) h false) (
          OnlyActive-OneActive h _ (
            hold_and_report-OnlyActive _ h (
              hold_others-OnlyActive _ h
                (rw (change_calls e a true) (hold_and_report-OneActive e a v))))))
  ])
]

-- Muting or unmuting a call, whether it is there or not, keeps it so that at most one call is off
-- hold and every call's session is held and muted as reported.
pub set_mute-OneActive :
    (e : Engine) (id : String) (b : Bool) → OneActive e.calls → OneActive (set_mute e id b).0.calls
unfolding set_mute
set_mute-OneActive e id b v = elim (Option-cases (get id e.calls)) [
  | inl n ↦ rw (n, set_mute) v
  | inr (c, n) ↦
      rw (n, set_mute)
        (put-OneActive id e c (mute_call c b) n
          (
            (v.agrees id c n).0,
            λ m p. elim (Option-cases c.media) [
              | inl k ↦ ground arith
              | inr (s, k) ↦ ground (arith, (v.agrees id c n).1 s k)
            ],
          )
          (λ s. s) v)
]

-- A call that is taken out leaves the others as they are.
pub remove-OneActive :
    (id : String) (calls : Dict ActiveCallState) → OneActive calls → OneActive (remove id calls)
remove-OneActive id calls v = record {
  one = λ j k c d p q.
      v.one j k c d (ground (arith, get-remove id j calls)) (ground (arith, get-remove id k calls));
  agrees = λ j c p. v.agrees j c (ground (arith, get-remove id j calls));
}

-- Ending a call here, for whatever reason, keeps it so that at most one call is off hold and every
-- call's session is held and muted as reported.
pub end_call_locally-OneActive :
    (e : Engine) (id : String) (r : EndReason)
    → OneActive e.calls
    → OneActive (end_call_locally e id r).0.calls
end_call_locally-OneActive e id r v =
    rw (end_call_locally-calls e id r) (remove-OneActive id e.calls v)
