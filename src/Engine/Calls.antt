-- ===== src/Engine/Calls.antt =====
-- src/lib.rs, the functions on the call map: taking a call out, holding, and listing the live calls.
pub mod Hold
pub mod End
pub mod Listed
use aria_mobile_core.Base.{
  ℕ, ◌+◌, leb, update, if◌then◌else◌, Bool, true, false, not, ◌&&◌, String, str_eq, Option, none,
  some, or_else, List, [], ◌∷◌, ◌++◌, map, length,
}
use aria_mobile_core.Base.Dict.{Dict, get, remove}
use aria_mobile_core.Types.{CallInfo, CallState, EndReason}
use aria_mobile_core.Events.{Event, Outbox, emit}
use aria_mobile_core.Auth.{report_rejection}
use aria_mobile_core.Gateway.Routes.{Route}
use aria_mobile_core.Media
use aria_mobile_core.Media.{MobileMediaSession}
use aria_mobile_core.Engine.State.{
  ActiveCallState, DialCells, Engine, OutgoingCalls, PendingOutgoing, Task, emit_ended_on, send_on,
}

unfoldable pub report_auth_rejected : Engine → ℕ → Engine
unfolding report_rejection
report_auth_rejected e generation =
    let (auth, tell) = report_rejection e.auth generation in
    let e' : Engine = record e { auth = auth } in
    if tell then send_on e' Event.auth_required else e'

abbrev pub stop_media : Option MobileMediaSession → List MobileMediaSession
stop_media none = []
stop_media (some m) = Media.stop m ∷ []

-- The session is dropped with the call; its threads see that it has been stopped.
unfoldable pub stop_call : Engine → ActiveCallState → Engine × ActiveCallState
unfolding Media.stop
stop_call e call = (
  record e {
    flag = update e.flag call.poll_stop true;
    stopped = e.stopped ++ stop_media call.media;
  },
  record call { media = none },
)

abbrev pub take_from : Engine → Option ActiveCallState → String → Engine × Option ActiveCallState
take_from e none call_id = (e, none)
take_from e (some call) call_id =
    let (e', call') = stop_call (record e { calls = remove call_id e.calls }) call in
    (e', some call')

unfoldable pub take_call : Engine → String → Engine × Option ActiveCallState
unfolding stop_call
take_call e call_id = take_from e (get call_id e.calls) call_id

abbrev pub end_taken : EndReason → Engine × Option ActiveCallState → Engine × Bool
end_taken reason (e, none) = (e, false)
end_taken reason (e, some call) = (emit_ended_on e call.events call.info reason, true)

unfoldable pub end_call_locally : Engine → String → EndReason → Engine × Bool
unfolding take_call
end_call_locally e call_id reason = end_taken reason (take_call e call_id)

abbrev pub hold_media : Bool → Option MobileMediaSession → Option MobileMediaSession
hold_media on_hold none = none
hold_media on_hold (some m) = some (Media.set_hold m on_hold)

-- The call with its new hold state, and whether that changed.
unfoldable pub apply_hold : ActiveCallState → Bool → ActiveCallState × Bool
unfolding Media.set_hold
apply_hold call on_hold = (
  record call {
    media = hold_media on_hold call.media;
    info = record (call.info) {
      on_hold = on_hold;
      state = if on_hold then CallState.held else CallState.connected;
    };
  },
  if call.info.on_hold then not on_hold else on_hold,
)

-- The loop of `hold_others`, over the entries of the call map.
unfoldable pub hold_entries : Outbox → Dict ActiveCallState → String → Outbox × Dict ActiveCallState
unfolding apply_hold
hold_entries o [] keep = (o, [])
hold_entries o ((call_id, call) ∷ rest) keep =
    let held : ActiveCallState × Bool =
      if str_eq call_id keep then (call, false) else apply_hold call true in
    let o' : Outbox = if held.1 then (emit o (held.0).events (held.0).info).0 else o in
    let r = hold_entries o' rest keep in (r.0, (call_id, held.0) ∷ r.1)

unfoldable pub hold_others : Engine → String → Engine
unfolding hold_entries
hold_others e keep =
    let (outbox, calls) = hold_entries e.outbox e.calls keep in
    record e { outbox = outbox; calls = calls }

abbrev pub live_call_count : Dict ActiveCallState → OutgoingCalls → List String → ℕ
live_call_count calls outgoing accepting = length calls + length outgoing.ringing + length accepting

abbrev connected_routes : Dict ActiveCallState → List (ℕ × Route)
connected_routes [] = []
connected_routes ((id, c) ∷ m) = (c.seq, c.route) ∷ connected_routes m

abbrev ringing_routes : (ℕ → DialCells) → Dict PendingOutgoing → List (ℕ × Route)
ringing_routes dials [] = []
ringing_routes dials ((id, p) ∷ m) =
    let rest = ringing_routes dials m in
    elim (dials p.dial).route [ none ↦ rest | some r ↦ (p.seq, r) ∷ rest ]

-- `min_by_key` keeps the first of equal keys.
abbrev pub oldest : List (ℕ × Route) → Option (ℕ × Route)
oldest [] = none
oldest ((s, r) ∷ l) = elim (oldest l) [
  | none ↦ some (s, r)
  | some (s', r') ↦ if leb s s' then some (s, r) else some (s', r')
]

unfoldable pub live_call_route :
    (ℕ → DialCells) → Dict ActiveCallState → OutgoingCalls → Option Route
live_call_route dials calls outgoing =
    elim (oldest (connected_routes calls ++ ringing_routes dials outgoing.ringing)) [
      | none ↦ none
      | some (s, r) ↦ some r
    ]

abbrev pub connected_infos : Dict ActiveCallState → List (ℕ × CallInfo)
connected_infos [] = []
connected_infos ((id, c) ∷ m) = (c.seq, c.info) ∷ connected_infos m

abbrev pub ringing_infos : Dict PendingOutgoing → List (ℕ × CallInfo)
ringing_infos [] = []
ringing_infos ((id, p) ∷ m) = (p.seq, p.info) ∷ ringing_infos m

-- `sort_by_key` is stable.
unfoldable pub insert_by_seq : ℕ × CallInfo → List (ℕ × CallInfo) → List (ℕ × CallInfo)
insert_by_seq x [] = x ∷ []
insert_by_seq x (y ∷ ys) = if leb x.0 y.0 then x ∷ y ∷ ys else y ∷ insert_by_seq x ys

unfoldable pub sort_by_seq : List (ℕ × CallInfo) → List (ℕ × CallInfo)
unfolding insert_by_seq
sort_by_seq [] = []
sort_by_seq (x ∷ xs) = insert_by_seq x (sort_by_seq xs)

unfoldable pub live_calls : Dict ActiveCallState → OutgoingCalls → List (ℕ × CallInfo)
unfolding sort_by_seq
live_calls calls outgoing = sort_by_seq (connected_infos calls ++ ringing_infos outgoing.ringing)

-- A media session that is stopped without having been part of a call.
abbrev pub stop_session : Engine → Option MobileMediaSession → Engine
stop_session e media = record e { stopped = e.stopped ++ stop_media media }

-- The RTP loops run with the audio bridge that is set now; without one there is no audio.
abbrev pub start_with : Engine → Option MobileMediaSession → Option ℕ → String → Engine
start_with e none bridge call_id = e
start_with e (some m) none call_id = e
start_with e (some m) (some bridge) call_id = record e {
  tasks = e.tasks ++ Task.rtp_loops call_id bridge ∷ [];
}

unfoldable pub start_media : Engine → Option MobileMediaSession → String → Engine
start_media e media call_id = start_with e media e.audio_bridge call_id
