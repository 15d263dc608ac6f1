-- ===== src/Engine/Steps/Numbered.antt =====
-- About src/lib.rs: the controls and the ends of calls leave the number, `seq`, of each call alone.
use aria_mobile_core.Base.{
  ℕ, ◌≡◌, refl, ap, ◌∙◌, Bool, true, false, not, ◌||◌, if◌then◌else◌, String, str_eq, List, [], ◌∷◌,
  inl, inr, Bool-cases, Option-cases,
}
use aria_mobile_core.Base.Dict.{Dict, get, contains_key}
use aria_mobile_core.Types.{CallStatusResponse, EndReason, from_gateway}
use aria_mobile_core.Events.{Outbox}
use aria_mobile_core.Engine.State.{ActiveCallState, Engine, PendingOutgoing}
use aria_mobile_core.Engine.Calls.{apply_hold, hold_entries, hold_others, end_call_locally}
use aria_mobile_core.Engine.Calls.End.{end_call_locally-calls}
use aria_mobile_core.Engine.Controls.{
  mute_call, set_mute, set_hold, swap_calls, hold_and_report, hold_and_report_change, last?,
  without_last, check_remote_hangup,
}
use aria_mobile_core.Engine.Controls.Active.{change_calls}
use aria_mobile_core.Engine.Transfer.{Leg, end_transferred_leg}
use aria_mobile_core.Engine.Polls.{is_gone, call_status}
use aria_mobile_core.Engine.Steps.Numbers.{Part, numbers, numbers-remove, numbers-put}

abbrev pub seq_of : ActiveCallState → ℕ
seq_of c = c.seq

abbrev pub ringing_seq_of : PendingOutgoing → ℕ
ringing_seq_of p = p.seq

-- The numbers of the connected and held calls.
abbrev pub seqs : Dict ActiveCallState → List ℕ
seqs m = numbers seq_of m

apply_hold-seq : (c : ActiveCallState) (b : Bool) → ((apply_hold c b).0).seq ≡ c.seq
unfolding apply_hold
apply_hold-seq c b = refl

hold_entries-seqs :
    (m : Dict ActiveCallState) (o : Outbox) (keep : String)
    → seqs (hold_entries o m keep).1 ≡ seqs m
unfolding hold_entries
hold_entries-seqs [] o keep = refl
hold_entries-seqs ((id, c) ∷ m) o keep = elim (Bool-cases (str_eq id keep)) [
  | inl t ↦ rw t (ap (λ l. c.seq ∷ l) (hold_entries-seqs m _ keep))
  | inr t ↦ rw t (ap (λ l. c.seq ∷ l) (hold_entries-seqs m _ keep))
]

pub hold_others-seqs : (e : Engine) (id : String) → seqs (hold_others e id).calls ≡ seqs e.calls
unfolding hold_others
hold_others-seqs e id = hold_entries-seqs e.calls e.outbox id

pub set_mute-seqs :
    (e : Engine) (id : String) (b : Bool) → seqs (set_mute e id b).0.calls ≡ seqs e.calls
unfolding set_mute
set_mute-seqs e id b = elim (Option-cases (get id e.calls)) [
  | inl n ↦ rw (n, set_mute) refl
  | inr (c, n) ↦ rw (n, set_mute) (numbers-put seq_of id (mute_call c b) c e.calls n refl)
]

hold_and_report-seqs :
    (e : Engine) (id : String) (b : Bool) → seqs (hold_and_report e id b).calls ≡ seqs e.calls
hold_and_report-seqs e id b = elim (Option-cases (get id e.calls)) [
  | inl n ↦ rw (n, hold_and_report) refl
  | inr (c, n) ↦
      rw (n, hold_and_report)
        (numbers-put seq_of id (apply_hold c b).0 c e.calls n (apply_hold-seq c b))
]

pub set_hold-seqs :
    (e : Engine) (id : String) (b : Bool) → seqs (set_hold e id b).0.calls ≡ seqs e.calls
unfolding set_hold
set_hold-seqs e id b = elim (Bool-cases (contains_key id e.calls)) [
  | inr t ↦ rw t refl
  | inl t ↦ rw t (by_state b)
]
  where
    by_state :
        (b : Bool)
        → seqs (hold_and_report (if b then e else hold_others e id) id b).calls ≡ seqs e.calls
    by_state true = hold_and_report-seqs e id true
    by_state false = hold_and_report-seqs (hold_others e id) id false ∙ hold_others-seqs e id

hold_and_report_change-seqs :
    (e : Engine) (id : String) (b : Bool)
    → seqs (hold_and_report_change e id b).calls ≡ seqs e.calls
hold_and_report_change-seqs e id b = rw (change_calls e id b) (hold_and_report-seqs e id b)

pub swap_calls-seqs : (e : Engine) (a b : String) → seqs (swap_calls e a b).0.calls ≡ seqs e.calls
unfolding swap_calls
swap_calls-seqs e a b = elim (Bool-cases (str_eq a b)) [
  | inl s ↦ rw s refl
  | inr s ↦ rw s (elim (Bool-cases (not (contains_key a e.calls) || not (contains_key b e.calls))) [
    | inl t ↦ rw t refl
    | inr t ↦ rw t (
        hold_and_report_change-seqs _ b false
        ∙ (hold_others-seqs _ b ∙ hold_and_report_change-seqs e a true))
  ])
]

pub end_call_locally-seqs :
    (e : Engine) (id : String) (r : EndReason)
    → Part (seqs (end_call_locally e id r).0.calls) (seqs e.calls)
end_call_locally-seqs e id r = rw (end_call_locally-calls e id r) (numbers-remove seq_of id e.calls)

pub call_status-seqs :
    (e : Engine) (streak : ℕ) (id : String) (s : CallStatusResponse)
    → Part (seqs (call_status e streak id s).0.calls) (seqs e.calls)
unfolding call_status
call_status-seqs e streak id s =
    let reason = from_gateway s.reason EndReason.remote_hangup in
    let ended = end_call_locally-seqs e id reason in
    elim (Bool-cases (is_gone streak s.status).1) [
      | inr t ↦ rw t (Part.same (seqs e.calls))
      | inl t ↦ elim (Bool-cases (end_call_locally e id reason).1) [
        | inl u ↦ rw (t, u) ended
        | inr u ↦ rw (t, u) ended
      ]
    ]

pub check_remote_hangup-seqs :
    (e : Engine) → Part (seqs (check_remote_hangup e).0.calls) (seqs e.calls)
unfolding check_remote_hangup
check_remote_hangup-seqs e =
    let e' : Engine = record e { remote_ended = without_last e.remote_ended } in
    elim (Option-cases (last? e.remote_ended)) [
      | inl n ↦ rw (check_remote_hangup, n) (Part.same (seqs e.calls))
      | inr (id, n) ↦
          rw (check_remote_hangup, n) (end_call_locally-seqs e' id EndReason.remote_hangup)
    ]

pub end_transferred_leg-seqs :
    (e : Engine) (leg : Leg) → Part (seqs (end_transferred_leg e leg).calls) (seqs e.calls)
unfolding end_transferred_leg
end_transferred_leg-seqs e leg =
    let after = end_call_locally-seqs e leg.call_id EndReason.transferred in
    elim (Bool-cases (end_call_locally e leg.call_id EndReason.transferred).1) [
      | inl t ↦ rw t after
      | inr t ↦ rw t after
    ]
