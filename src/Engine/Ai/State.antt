-- ===== src/Engine/Ai/State.antt =====
-- src/ai.rs, `AiState`: opening it, the captures, and the transcription of one.
use aria_mobile_core.Base.{
  ℕ, ltb, not, ◌/◌, Bool, true, false, if◌then◌else◌, String, Option, none, some, List, [], map,
}
use mathlib.Core.Option
use aria_mobile_core.Base.Dict.{Dict, get, insert, modify, remove}
use aria_mobile_core.Types.{MobileError, Result, ok, err}
use aria_mobile_core.Types.Insights.{AiCallInsight, AiTranscriptSegment}
use aria_mobile_core.Engine.Ai.Library.{
  AiLib, CallInsight, Segment, Transcript, Summary, Speaker, InsightStatus, ModelKind, Platform,
  DeviceCapability,
}

-- A capture session of the AI library is a number; its drain thread ends with the entry.
pub record CaptureSession : Type 0 where
  pub session : ℕ
  pub stopped : Bool

pub record AiState (M S : Type 0) : Type 0 where
  pub engine : M
  pub sessions : Dict CaptureSession
  pub store : Option S

-- What the build and the device are: the target, and `available_parallelism`.
pub data Target : Type 0 where
  ios android macos other : Target

pub record Device : Type 0 where
  pub target : Target
  pub is_64bit : Bool
  pub parallelism : Option ℕ

abbrev platform : Target → Platform
platform Target.ios = Platform.ios
platform Target.android = Platform.android
platform Target.macos = Platform.mac_os
platform Target.other = Platform.other

abbrev has_metal : Target → Bool
has_metal Target.ios = true
has_metal Target.macos = true
has_metal _ = false

-- `u32::try_from`, with 4 where it fails or the count is not known.
abbrev cores : Option ℕ → ℕ
cores none = 4
cores (some n) = if ltb n 4294967296 then n else 4

unfoldable pub device_capability : Device → DeviceCapability
device_capability d = record {
  platform = platform d.target;
  total_ram_mb = 4096;
  available_ram_mb = 4096 / 2;
  cpu_cores = cores d.parallelism;
  is_64bit = d.is_64bit;
  has_gpu_backend = has_metal d.target;
}

abbrev speaker_name : Speaker → String
speaker_name Speaker.local = "local"
speaker_name Speaker.remote = "remote"

abbrev status_name : InsightStatus → String
status_name InsightStatus.pending = "pending"
status_name InsightStatus.transcribing = "transcribing"
status_name InsightStatus.summarizing = "summarizing"
status_name InsightStatus.complete = "complete"
status_name InsightStatus.transcript_only = "transcript_only"
status_name InsightStatus.failed = "failed"

abbrev segment_of : Segment → AiTranscriptSegment
segment_of s = record {
  speaker = speaker_name s.speaker;
  start_ms = s.start_ms;
  end_ms = s.end_ms;
  text = s.text;
}

abbrev segments_of : Option Transcript → List AiTranscriptSegment
segments_of none = []
segments_of (some t) = map segment_of t.segments

abbrev points_of : Option Summary → List String
points_of none = []
points_of (some s) = s.key_points

unfoldable pub to_insight : CallInsight → AiCallInsight
to_insight i = record {
  call_id = i.call_id;
  created_at = i.created_at;
  duration_secs = i.duration_secs;
  segments = segments_of i.transcript;
  language = Option.map (λ (t : Transcript). t.language) i.transcript;
  summary_headline = Option.map (λ (s : Summary). s.headline) i.summary;
  summary_points = points_of i.summary;
  status = status_name i.status;
}

abbrev pub stopped_session : CaptureSession → CaptureSession
stopped_session c = record c { stopped = true }

module _ {M S : Type 0} where
  -- `started` is the session that the library starts, if it does. One that is there already is
  -- replaced.
  unfoldable pub start_capture : AiState M S → String → Option ℕ → AiState M S × Result ℕ
  start_capture ai call_id none = (ai, err MobileError.invalid_state)
  start_capture ai call_id (some started) = (
    record ai {
      sessions = insert call_id (record { session = started; stopped = false }) ai.sessions;
    },
    ok started,
  )

  unfoldable pub stop_capture : AiState M S → String → AiState M S
  stop_capture ai call_id = record ai { sessions = modify call_id stopped_session ai.sessions }

  unfoldable pub discard : AiState M S → String → AiState M S
  discard ai call_id = record ai { sessions = remove call_id ai.sessions }

  -- A store that does not open is done without.
  unfoldable pub new_state : AiLib M S → Device → String → Option (List ℕ) → Result (AiState M S)
  unfolding device_capability
  new_state lib device storage_dir insight_key =
      elim (lib.open_engine storage_dir (device_capability device)) [
        | none ↦ err MobileError.invalid_state
        | some engine ↦ ok (record {
          engine = engine;
          sessions = [];
          store = elim insight_key [
            | none ↦ none
            | some key ↦ lib.open_store storage_dir "insights.db" key
          ];
        })
      ]

  module _ (lib : AiLib M S) where
    -- The model that the session is asked to be summarised by; what becomes of that is the library's.
    abbrev pub summarize_if_possible : M → Option String
    summarize_if_possible engine = elim (lib.recommended engine ModelKind.llm) [
      | none ↦ none
      | some llm ↦ if lib.summarizer engine llm.id then some llm.id else none
    ]

    abbrev pub transcribed : M → ℕ → Result CallInsight
    transcribed engine session = elim (lib.recommended engine ModelKind.stt) [
      | none ↦ err MobileError.invalid_state
      | some stt ↦
          if not (lib.transcriber engine stt.id)
          then err MobileError.invalid_state
          else if not (lib.transcribe session stt.id)
          then err MobileError.invalid_state
          else ok (lib.insight session stt.id (summarize_if_possible engine))
    ]

    abbrev pub persist : CallInsight → Option S → Option S
    persist insight none = none
    persist insight (some store) = some ((lib.put store insight).0)

    abbrev pub keep_insight : AiState M S → Result CallInsight → AiState M S × Result AiCallInsight
    keep_insight ai (err x) = (ai, err x)
    keep_insight ai (ok insight) =
        (record ai { store = persist insight ai.store }, ok (to_insight insight))

    abbrev pub transcribe_taken :
        AiState M S → Option CaptureSession → AiState M S × Result AiCallInsight
    transcribe_taken ai none = (ai, err MobileError.invalid_state)
    transcribe_taken ai (some entry) = keep_insight ai (transcribed ai.engine entry.session)

    -- The capture is taken out before anything can fail.
    unfoldable pub transcribe : AiState M S → String → AiState M S × Result AiCallInsight
    transcribe ai call_id =
        transcribe_taken (record ai { sessions = remove call_id ai.sessions })
          (get call_id ai.sessions)
