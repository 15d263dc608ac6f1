-- ===== src/Engine/Polls.antt =====
-- src/lib.rs, the status polls: one of each live call, and one of each offered call (its watch).
pub mod Gone
pub mod Watch
use aria_mobile_core.Base.{
  ℕ, ◌+◌, leb, u32, update, if◌then◌else◌, Bool, true, false, not, ◌&&◌, String, str_eq, Option,
  none, some, List, [], ◌∷◌,
}
use aria_mobile_core.Base.Dict.{get, modify, remove}
use aria_mobile_core.Types.{
  CallStatusResponse, EndReason, MobileError, Result, ok, err, from_gateway,
}
use aria_mobile_core.Auth.{snapshot}
use aria_mobile_core.Engine.State.{Await, Engine, PendingIncoming, emit_ended_on}
use aria_mobile_core.Engine.Calls.{end_call_locally, report_auth_rejected}
use aria_mobile_core.Engine.Controls.{push_remote_ended}

abbrev pub unknown_statuses_before_ended : ℕ
unknown_statuses_before_ended = 3

-- `GoneDetector` is its only field, the streak of `unknown` answers: the new streak, and whether the
-- call is gone.
unfoldable pub is_gone : ℕ → String → ℕ × Bool
is_gone unknown_streak status =
    if str_eq status "ended"
    then (unknown_streak, true)
    else if str_eq status "unknown"
    then (u32 (unknown_streak + 1), leb unknown_statuses_before_ended (u32 (unknown_streak + 1)))
    else (0, false)

pub data PollAction : Type 0 where
  continue stop reject hang_up : PollAction

-- The closure of `start_call_status_poll`: the engine, the streak and what to do next.
unfoldable pub call_status : Engine → ℕ → String → CallStatusResponse → Engine × ℕ × PollAction
unfolding is_gone
call_status e streak call_id status =
    let (streak', gone) = is_gone streak status.status in
    if not gone
    then (e, streak', continue)
    else let ended =
        end_call_locally e call_id (from_gateway status.reason EndReason.remote_hangup) in
      let e' = ended.0 in
      (
        if ended.1
            then record e' { remote_ended = push_remote_ended e'.remote_ended call_id }
            else e',
        streak',
        stop,
      )

abbrev pub drop_pending : Engine → String → Engine
drop_pending e token = record e { pending_incoming = remove token e.pending_incoming }

-- The closure of `watch_incoming`, on the entry that it finds.
abbrev pub watch_entry :
    Engine → ℕ → String → CallStatusResponse → PendingIncoming → Engine × ℕ × PollAction
watch_entry e streak token status entry =
    let (streak', gone) = is_gone streak status.status in
    if str_eq status.status "active"
    then (if entry.accepting
        then (drop_pending e token, streak, stop)
        else if entry.abandoned
        then (drop_pending e token, streak, hang_up)
        else (
          emit_ended_on (drop_pending e token) entry.events entry.info EndReason.answered_elsewhere,
          streak,
          stop,
        ))
    else if gone
    then (
      if not entry.abandoned
          then emit_ended_on (drop_pending e token) entry.events entry.info
              (from_gateway status.reason EndReason.caller_cancelled)
          else drop_pending e token,
      streak',
      stop,
    )
    else if entry.abandoned && not entry.rejected
    then (
      record e {
        pending_incoming = modify token (λ p. record p { rejected = true }) e.pending_incoming;
      },
      streak',
      reject,
    )
    else (e, streak', continue)

unfoldable pub watch_status : Engine → ℕ → String → CallStatusResponse → Engine × ℕ × PollAction
unfolding is_gone
watch_status e streak token status = elim (get token e.pending_incoming) [
  | none ↦ (e, streak, stop)
  | some entry ↦ watch_entry e streak token status entry
]

-- What the status poll has of its own: the stop flag that it shares, and its streak.
pub record Poll : Type 0 where
  pub flag : ℕ
  pub streak : ℕ

-- What a turn of the poll leaves to do at the gateway.
pub data Request : Type 0 where
  reject_call hang_up_call : Request

-- One turn of `spawn_status_poll`, after its sleep: `expired` says that the poll is older than its
-- maximum, `reply` is the gateway's answer. The poll goes on if one comes back.
unfoldable pub poll_turn :
    (Engine → ℕ → CallStatusResponse → Engine × ℕ × PollAction)
    → Engine
    → Poll
    → Bool
    → Await (Result CallStatusResponse)
    → Engine × Option Poll × List Request
poll_turn on_status e poll expired reply =
    if e.flag poll.flag
    then (e, none, [])
    else if expired
    then (e, none, [])
    else let generation = (snapshot e.auth).1 in
      let e1 = reply.meanwhile e in
      elim reply.answer [
        | ok status ↦
            let (e2, streak, action) = on_status e1 poll.streak status in
            let again : Poll = record poll { streak = streak } in
            let stopped : Engine = record e2 { flag = update e2.flag poll.flag true } in
            elim action [
              | continue ↦ (e2, some again, [])
              | stop ↦ (stopped, none, [])
              | reject ↦ (e2, some again, reject_call ∷ [])
              | hang_up ↦ (stopped, none, hang_up_call ∷ [])
            ]
        | err MobileError.authentication_error ↦ (report_auth_rejected e1 generation, some poll, [])
        | err x ↦ (e1, some poll, [])
      ]
