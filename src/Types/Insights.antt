-- ===== src/Types/Insights.antt =====
-- src/types.rs: what the app is told of the on-device AI. An `i64` is an integer.
use aria_mobile_core.Base.{ℕ, Bool, String, Option, List}

-- `negsuc n` is -(n + 1).
pub data ℤ : Type 0 where
  pos : ℕ → ℤ
  negsuc : ℕ → ℤ

pub record AiModel : Type 0 where
  pub id : String
  pub display_name : String
  pub kind : String
  pub size_bytes : ℕ
  pub available : Bool
  pub unavailable_reason : Option String
  pub installed : Bool

pub record AiDownloadProgress : Type 0 where
  pub model_id : String
  pub downloaded_bytes : ℕ
  pub total_bytes : ℕ
  pub state : String
  pub error : Option String

pub record AiTranscriptSegment : Type 0 where
  pub speaker : String
  pub start_ms : ℕ
  pub end_ms : ℕ
  pub text : String

pub record AiCallInsight : Type 0 where
  pub call_id : String
  pub created_at : ℤ
  pub duration_secs : ℕ
  pub segments : List AiTranscriptSegment
  pub language : Option String
  pub summary_headline : Option String
  pub summary_points : List String
  pub status : String

pub record AiInsightSummary : Type 0 where
  pub call_id : String
  pub created_at : ℤ
  pub duration_secs : ℕ
  pub status : String
