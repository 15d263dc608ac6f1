-- ===== src/Engine/Steps/Minted.antt =====
-- About src/lib.rs: which steps may give a call a number, and that the others do not.
use aria_mobile_core.Base.{ℕ, ◌≡◌, refl, Bool, true, false, List, inl}
use aria_mobile_core.Types.{EndReason}
use aria_mobile_core.Engine.State.{Engine}
use aria_mobile_core.Engine.Controls.{set_gateway_token}
use aria_mobile_core.Engine.Accept.{release_accept}
use aria_mobile_core.Engine.Accept.Connect.{
  reserve_accept-calls, begin_answer-calls, watch_incoming-calls,
}
use aria_mobile_core.Engine.Steps.{Step}
use aria_mobile_core.Engine.Steps.Reached.{
  watch_status-calls, end_rejected-calls, report_auth_rejected-calls,
}
use aria_mobile_core.Engine.Steps.Numbers.{Part}
use aria_mobile_core.Engine.Steps.Numbered.{
  set_mute-seqs, set_hold-seqs, swap_calls-seqs, end_call_locally-seqs, call_status-seqs,
  check_remote_hangup-seqs, end_transferred_leg-seqs,
}
use aria_mobile_core.Engine.Steps.Counter.{
  set_mute-Still, set_hold-Still, swap_calls-Still, end_call_locally-Still, call_status-Still,
  check_remote_hangup-Still, end_transferred_leg-Still, reserve_accept-Still, begin_answer-Still,
  watch_status-Still, watch_incoming-Still, end_rejected-Still, report_auth_rejected-Still,
}
use aria_mobile_core.Engine.Steps.Counted.{
  Fewer, Counted, all_seqs, Still-Fewer, Still-Fewer_same, mark_dialing-Fewer, fail_ringing-Fewer,
  hangup-Fewer, reserve_outgoing-Counted,
}
use aria_mobile_core.Engine.Steps.Connected.{finish_dial-Fewer, after_accept-Counted}

same-Part : {l m : List ℕ} → l ≡ m → Part l m
same-Part {l} {m} p = rw p (Part.same m)

-- The steps that may give a number to a call.
abbrev pub is_new : {e e' : Engine} → Step e e' → Bool
is_new (Step.reserving e id uri) = true
is_new (Step.answered e o r m cell reply f u) = true
is_new s = false

pub absurd_bool : {A : Type 0} → true ≡ false → A
absurd_bool p = cc

pub Step-Fewer : (e e' : Engine) (s : Step e e') → is_new s ≡ false → Fewer e e'
unfolding set_gateway_token release_accept
Step-Fewer _ e' (Step.muting e id b) q =
    Still-Fewer e e' (set_mute-Still e id b) (same-Part (set_mute-seqs e id b))
Step-Fewer _ e' (Step.holding e id b) q =
    Still-Fewer e e' (set_hold-Still e id b) (same-Part (set_hold-seqs e id b))
Step-Fewer _ e' (Step.swapping e a b) q =
    Still-Fewer e e' (swap_calls-Still e a b) (same-Part (swap_calls-seqs e a b))
Step-Fewer _ e' (Step.hanging_up e id) q = hangup-Fewer e id
Step-Fewer _ e' (Step.reserving e id uri) q = absurd_bool q
Step-Fewer _ e' (Step.sending e id) q = mark_dialing-Fewer e id
Step-Fewer _ e' (Step.trying e dial r) q = (Part.same (all_seqs e), refl)
Step-Fewer _ e' (Step.dialed lib e id r m request i f u) q = finish_dial-Fewer lib e id r m request
Step-Fewer _ e' (Step.not_dialed e id x) q = fail_ringing-Fewer e id x
Step-Fewer _ e' (Step.accepting e t) q =
    Still-Fewer_same e e' (reserve_accept-Still e t) (reserve_accept-calls e t)
Step-Fewer _ e' (Step.answering e t) q =
    Still-Fewer_same e e' (begin_answer-Still e t) (begin_answer-calls e t)
Step-Fewer _ e' (Step.answered e o r m cell reply f u) q = absurd_bool q
Step-Fewer _ e' (Step.accepted e t) q = (Part.same (all_seqs e), refl)
Step-Fewer _ e' (Step.polled e streak id s) q =
    Still-Fewer e e' (call_status-Still e streak id s) (call_status-seqs e streak id s)
Step-Fewer _ e' (Step.watched e streak t s) q =
    Still-Fewer_same e e' (watch_status-Still e streak t s) (watch_status-calls e streak t s)
Step-Fewer _ e' (Step.pushed e o r b) q =
    Still-Fewer_same e e' (watch_incoming-Still e o r b) (watch_incoming-calls e o r b)
Step-Fewer _ e' (Step.rejected e t) q =
    Still-Fewer_same e e' (end_rejected-Still e t) (end_rejected-calls e t)
Step-Fewer _ e' (Step.transferred e id) q =
    Still-Fewer e e' (end_call_locally-Still e id EndReason.transferred)
      (end_call_locally-seqs e id EndReason.transferred)
Step-Fewer _ e' (Step.left_up e leg) q =
    Still-Fewer e e' (end_transferred_leg-Still e leg) (end_transferred_leg-seqs e leg)
Step-Fewer _ e' (Step.unauthorized e g) q =
    Still-Fewer_same e e' (report_auth_rejected-Still e g) (report_auth_rejected-calls e g)
Step-Fewer _ e' (Step.checking e) q =
    Still-Fewer e e' (check_remote_hangup-Still e) (check_remote_hangup-seqs e)
Step-Fewer _ e' (Step.signing_in e t) q = (Part.same (all_seqs e), refl)

pub Step-Counted : (e e' : Engine) → Step e e' → Counted e e'
Step-Counted _ _ (Step.reserving e id uri) = reserve_outgoing-Counted e id uri
Step-Counted _ _ (Step.answered e o r m cell reply f u) = after_accept-Counted e o r m cell reply
Step-Counted e e' s = inl (Step-Fewer e e' s refl)
