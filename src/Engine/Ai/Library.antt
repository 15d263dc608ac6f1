-- ===== src/Engine/Ai/Library.antt =====
-- The AI library that src/ai.rs calls: what it reads of the library's types, and the library's
-- functions as a parameter.
use aria_mobile_core.Base.{
  ℕ, ◌≡◌, Bool, ◌&&◌, if◌then◌else◌, String, str_eq, is_some, Option, none, some, List,
}
use aria_mobile_core.Types.Insights.{ℤ}

pub data ModelKind : Type 0 where
  stt llm vad : ModelKind

pub record ModelInfo : Type 0 where
  pub id : String
  pub display_name : String
  pub kind : ModelKind
  pub size_bytes : ℕ

pub record Availability : Type 0 where
  pub model : ModelInfo
  pub available : Bool
  pub reason : Option String

pub data DownloadState : Type 0 where
  queued running verifying completed cancelled : DownloadState
  failed : String → DownloadState

pub record DownloadProgress : Type 0 where
  pub model_id : String
  pub downloaded_bytes : ℕ
  pub total_bytes : ℕ
  pub state : DownloadState

pub data Speaker : Type 0 where
  local remote : Speaker

pub record Segment : Type 0 where
  pub speaker : Speaker
  pub start_ms : ℕ
  pub end_ms : ℕ
  pub text : String

pub record Transcript : Type 0 where
  pub segments : List Segment
  pub language : String

pub record Summary : Type 0 where
  pub headline : String
  pub key_points : List String

pub data InsightStatus : Type 0 where
  pending transcribing summarizing complete transcript_only failed : InsightStatus

pub record CallInsight : Type 0 where
  pub call_id : String
  pub created_at : ℤ
  pub duration_secs : ℕ
  pub transcript : Option Transcript
  pub summary : Option Summary
  pub status : InsightStatus

pub record InsightSummaryRow : Type 0 where
  pub call_id : String
  pub created_at : ℤ
  pub duration_secs : ℕ
  pub status : String

pub data Platform : Type 0 where
  ios android mac_os other : Platform

pub record DeviceCapability : Type 0 where
  pub platform : Platform
  pub total_ram_mb : ℕ
  pub available_ram_mb : ℕ
  pub cpu_cores : ℕ
  pub is_64bit : Bool
  pub has_gpu_backend : Bool

-- `M` is the library's engine with its models, `S` an open store. A session is a number. An operation
-- that changes the engine or the store gives the new one, and none or false where it fails.
pub record AiLib (M S : Type 0) : Type 0 where
  pub open_engine : String → DeviceCapability → Option M
  -- The file of the second name in the directory, opened with the key.
  pub open_store : String → String → List ℕ → Option S
  pub list : S → ℕ → ℕ → Option (List InsightSummaryRow)
  pub fetch : S → String → Option (Option CallInsight)
  pub delete : S → String → S × Option Bool
  pub clear : S → S × Option ℕ
  pub put : S → CallInsight → S × Bool
  pub installed_models : M → List ModelInfo
  pub availability : M → List Availability
  pub start_download : M → String → M × Bool
  pub download_progress : M → String → Option DownloadProgress
  pub cancel_download : M → String → M
  pub delete_model : M → String → M × Bool
  pub recommended : M → ModelKind → Option ModelInfo
  -- Whether the model of that id loads, and whether it runs on the session's audio.
  pub transcriber : M → String → Bool
  pub summarizer : M → String → Bool
  pub transcribe : ℕ → String → Bool
  -- The call id that a session was started with, and its insight after the first model has transcribed
  -- it and the second, if any, was asked for a summary.
  pub session_call : ℕ → String
  pub insight : ℕ → String → Option String → CallInsight

-- What the library promises: the store gives back what was put and not deleted since, where an
-- operation that fails changes nothing, and a session's insight is about the call that it was started
-- for.
pub record AiLaws {M S : Type 0} (lib : AiLib M S) : Type 0 where
  pub fetch_put :
      (s : S) (i : CallInsight) (id : String)
      → lib.fetch (lib.put s i).0 id
        ≡ (if (lib.put s i).1 && str_eq i.call_id id then some (some i) else lib.fetch s id)
  pub fetch_delete :
      (s : S) (id j : String)
      → lib.fetch (lib.delete s id).0 j
        ≡ (if is_some (lib.delete s id).1 && str_eq id j then some none else lib.fetch s j)
  pub fetch_clear :
      (s : S) (j : String)
      → lib.fetch (lib.clear s).0 j ≡ (if is_some (lib.clear s).1 then some none else lib.fetch s j)
  pub insight_call :
      (n : ℕ) (model : String) (summarizer : Option String)
      → (lib.insight n model summarizer).call_id ≡ lib.session_call n
