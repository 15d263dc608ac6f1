-- ===== src/Engine/Sessions.antt =====
-- src/lib.rs, the app's access to what the engine holds for it: the handler, the audio bridge, the
-- media of a call; and `make_call`.
use aria_mobile_core.Base.{ℕ, Bool, false, String, Option, none, some, List, []}
use aria_mobile_core.Base.Dict.{get}
use aria_mobile_core.Types.{AudioCodec, CallInfo, MobileError, Result, ok, err}
use aria_mobile_core.Events.{Event, set_handler}
use aria_mobile_core.Media.{MediaLib, MobileMediaSession, srtp_active}
use aria_mobile_core.Media.Transmit.{Datagram}
use aria_mobile_core.Media.Dtmf
use aria_mobile_core.Media.Dtmf.{HeaderBytes}
use aria_mobile_core.Engine.State.{ActiveCallState, Engine, send_on}
use aria_mobile_core.Engine.Ids.{new_outgoing_call_id}
use aria_mobile_core.Engine.Dial.{Select, Offer, MakeCallAnswer, make_call_with_id}

unfoldable pub set_event_handler : Engine → ℕ → Engine
set_event_handler e handler = record e {
  outbox = record (e.outbox) { dispatcher = set_handler e.outbox.dispatcher (some handler) };
}

unfoldable pub set_audio_bridge : Engine → ℕ → Engine
set_audio_bridge e bridge = record e { audio_bridge = some bridge }

unfoldable pub emit_error : Engine → String → String → Engine
emit_error e context message = send_on e (Event.error context message)

-- `uuid` is that of the random generator.
unfoldable pub make_call :
    MediaLib
    → Engine
    → String
    → String
    → List AudioCodec
    → (List AudioCodec → Select Offer)
    → Select MakeCallAnswer
    → Engine × Result CallInfo
unfolding make_call_with_id
make_call lib e uuid uri preferred make_offer request =
    make_call_with_id lib e (new_outgoing_call_id uuid) uri preferred make_offer request

abbrev pub session_of : Option ActiveCallState → Option MobileMediaSession
session_of none = none
session_of (some call) = call.media

unfoldable pub call_is_encrypted : Engine → String → Bool
call_is_encrypted e call_id = elim (session_of (get call_id e.calls)) [
  | none ↦ false
  | some media ↦ srtp_active media
]

-- What the media's thread sends; the timestamp and the first sequence number are random.
unfoldable pub send_dtmf : HeaderBytes → Engine → String → String → ℕ → ℕ → Result (List Datagram)
send_dtmf header_bytes e call_id digit timestamp seq_base = elim (get call_id e.calls) [
  | none ↦ err MobileError.invalid_state
  | some call ↦ elim call.media [
    | none ↦ ok []
    | some media ↦
        ok (Dtmf.send_dtmf header_bytes media.remote_addr media.ssrc timestamp seq_base digit)
  ]
]
