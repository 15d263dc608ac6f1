-- ===== src/Engine/Controls.antt =====
-- src/lib.rs, the controls of live calls: mute, hold, swap, and what the app can ask for.
pub mod Active
use aria_mobile_core.Base.{
  ℕ, if◌then◌else◌, Bool, true, false, not, ◌||◌, String, str_eq, Option, none, some, List, [], ◌∷◌,
  map, ◌++◌, ltb, ◌-◌, length, drop,
}
use mathlib.Core.Option
use aria_mobile_core.Base.Dict.{Dict, get, contains_key, insert}
use aria_mobile_core.Types.{AudioCodec, CallInfo, EndReason, MobileError, Result, ok, err}
use aria_mobile_core.Events.{Outbox}
use aria_mobile_core.Auth
use aria_mobile_core.Media
use aria_mobile_core.Media.{MobileMediaSession}
use aria_mobile_core.Engine.State.{ActiveCallState, Engine, emit_on, remote_ended_backlog}
use aria_mobile_core.Engine.Calls.{apply_hold, hold_others, end_call_locally, live_calls}

-- A write to the entry of a call that is there.
abbrev pub put_call : Engine → String → ActiveCallState → Engine
put_call e call_id call = record e { calls = insert call_id call e.calls }

abbrev pub mute_media : Bool → Option MobileMediaSession → Option MobileMediaSession
mute_media muted none = none
mute_media muted (some m) = some (Media.set_mute m muted)

abbrev pub mute_call : ActiveCallState → Bool → ActiveCallState
mute_call call muted = record call {
  media = mute_media muted call.media;
  info = record (call.info) { muted = muted };
}

unfoldable pub set_mute : Engine → String → Bool → Engine × Result (Unit {0})
unfolding Media.set_mute
set_mute e call_id muted = elim (get call_id e.calls) [
  | none ↦ (e, err MobileError.invalid_state)
  | some call ↦
      let call' = mute_call call muted in
      (emit_on (put_call e call_id call') call'.events call'.info, ok tt)
]

-- Puts a call on or off hold and reports it, where it is there.
abbrev pub hold_and_report : Engine → String → Bool → Engine
hold_and_report e call_id on_hold = elim (get call_id e.calls) [
  | none ↦ e
  | some call ↦
      let call' = (apply_hold call on_hold).0 in
      emit_on (put_call e call_id call') call'.events call'.info
]

unfoldable pub set_hold : Engine → String → Bool → Engine × Result (Unit {0})
set_hold e call_id on_hold =
    if contains_key call_id e.calls
    then (hold_and_report (if on_hold then e else hold_others e call_id) call_id on_hold, ok tt)
    else (e, err MobileError.invalid_state)

-- The same, reported only where the hold state changed.
abbrev pub hold_and_report_change : Engine → String → Bool → Engine
hold_and_report_change e call_id on_hold = elim (get call_id e.calls) [
  | none ↦ e
  | some call ↦
      let (call', changed) = apply_hold call on_hold in
      let e' = put_call e call_id call' in
      if changed then emit_on e' call'.events call'.info else e'
]

unfoldable pub swap_calls : Engine → String → String → Engine × Result (Unit {0})
swap_calls e active_call_id held_call_id =
    if str_eq active_call_id held_call_id
    then (e, err MobileError.invalid_state)
    else if not (contains_key active_call_id e.calls) || not (contains_key held_call_id e.calls)
    then (e, err MobileError.invalid_state)
    else (
      hold_and_report_change
          (hold_others (hold_and_report_change e active_call_id true) held_call_id) held_call_id
          false,
      ok tt,
    )

unfoldable pub set_gateway_token : Engine → String → Engine
set_gateway_token e token = record e { auth = Auth.set e.auth token }

unfoldable pub set_codec_preferences : Engine → List AudioCodec → Engine
set_codec_preferences e codecs = record e { codec_prefs = codecs }

abbrev pub last? {ℓ} : {A : Type ℓ} → List A → Option A
last? [] = none
last? (x ∷ []) = some x
last? (x ∷ y ∷ l) = last? (y ∷ l)

abbrev first_unheld : Dict ActiveCallState → Option CallInfo
first_unheld [] = none
first_unheld ((id, c) ∷ m) = if c.info.on_hold then first_unheld m else some c.info

unfoldable pub get_calls : Engine → List CallInfo
unfolding live_calls
get_calls e = map (λ x. x.1) (live_calls e.calls e.outgoing)

unfoldable pub get_active_call : Engine → Option CallInfo
unfolding live_calls
get_active_call e = elim (first_unheld e.calls) [
  | some info ↦ some info
  | none ↦ Option.map (λ x. x.1) (last? (live_calls e.calls e.outgoing))
]

abbrev pub without_last {ℓ} : {A : Type ℓ} → List A → List A
without_last [] = []
without_last (x ∷ []) = []
without_last (x ∷ y ∷ l) = x ∷ without_last (y ∷ l)

-- The vector is a stack here: `pop` takes the newest id.
unfoldable pub check_remote_hangup : Engine → Engine × Option String
check_remote_hangup e =
    let e' : Engine = record e { remote_ended = without_last e.remote_ended } in
    elim (last? e.remote_ended) [
      | none ↦ (e', none)
      | some call_id ↦ ((end_call_locally e' call_id EndReason.remote_hangup).0, some call_id)
    ]

-- The ids that ended at the far end are kept up to a bound, the newest ones.
unfoldable pub push_remote_ended : List String → String → List String
push_remote_ended l call_id =
    let ended : List String = l ++ call_id ∷ [] in
    if ltb remote_ended_backlog (length ended)
    then drop (length ended - remote_ended_backlog) ended
    else ended
