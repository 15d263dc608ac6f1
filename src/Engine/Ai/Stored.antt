-- ===== src/Engine/Ai/Stored.antt =====
-- src/ai.rs, `AiState`: the models with their downloads, and the stored insights.
use aria_mobile_core.Base.{
  ℕ, Bool, true, false, String, str_eq, any, Option, none, some, List, [], map,
}
use mathlib.Core.Option
use aria_mobile_core.Types.{MobileError, Result, ok, err}
use aria_mobile_core.Types.Insights.{AiCallInsight, AiDownloadProgress, AiInsightSummary, AiModel}
use aria_mobile_core.Engine.Ai.Library.{
  AiLib, Availability, DownloadProgress, DownloadState, InsightSummaryRow, ModelInfo, ModelKind,
}
use aria_mobile_core.Engine.Ai.State.{AiState, to_insight}

unfoldable pub to_summary : InsightSummaryRow → AiInsightSummary
to_summary r = record {
  call_id = r.call_id;
  created_at = r.created_at;
  duration_secs = r.duration_secs;
  status = r.status;
}

abbrev kind_name : ModelKind → String
kind_name ModelKind.stt = "stt"
kind_name ModelKind.llm = "llm"
kind_name ModelKind.vad = "vad"

abbrev model_of : List String → Availability → AiModel
model_of installed a = record {
  id = a.model.id;
  display_name = a.model.display_name;
  kind = kind_name a.model.kind;
  size_bytes = a.model.size_bytes;
  available = a.available;
  unavailable_reason = a.reason;
  installed = any (λ id. str_eq id a.model.id) installed;
}

abbrev download_state : DownloadState → String × Option String
download_state DownloadState.queued = ("queued", none)
download_state DownloadState.running = ("running", none)
download_state DownloadState.verifying = ("verifying", none)
download_state DownloadState.completed = ("completed", none)
download_state DownloadState.cancelled = ("cancelled", none)
download_state (DownloadState.failed reason) = ("failed", some reason)

abbrev progress_of : DownloadProgress → AiDownloadProgress
progress_of p = record {
  model_id = p.model_id;
  downloaded_bytes = p.downloaded_bytes;
  total_bytes = p.total_bytes;
  state = (download_state p.state).0;
  error = (download_state p.state).1;
}

abbrev done_or_invalid : Bool → Result (Unit {0})
done_or_invalid true = ok tt
done_or_invalid false = err MobileError.invalid_state

module _ {M S : Type 0} (lib : AiLib M S) where
  unfoldable pub models : AiState M S → List AiModel
  models ai =
      let installed = map (λ (m : ModelInfo). m.id) (lib.installed_models ai.engine) in
      map (model_of installed) (lib.availability ai.engine)

  unfoldable pub start_download : AiState M S → String → AiState M S × Result (Unit {0})
  start_download ai model_id =
      let (engine, done) = lib.start_download ai.engine model_id in
      (record ai { engine = engine }, done_or_invalid done)

  unfoldable pub download_progress : AiState M S → String → Option AiDownloadProgress
  download_progress ai model_id = Option.map progress_of (lib.download_progress ai.engine model_id)

  unfoldable pub cancel_download : AiState M S → String → AiState M S
  cancel_download ai model_id = record ai { engine = lib.cancel_download ai.engine model_id }

  unfoldable pub delete_model : AiState M S → String → AiState M S × Result (Unit {0})
  delete_model ai model_id =
      let (engine, done) = lib.delete_model ai.engine model_id in
      (record ai { engine = engine }, done_or_invalid done)

  unfoldable pub insights : AiState M S → ℕ → ℕ → List AiInsightSummary
  unfolding to_summary
  insights ai limit offset = elim ai.store [
    | none ↦ []
    | some store ↦ elim (lib.list store limit offset) [
      | none ↦ []
      | some rows ↦ map to_summary rows
    ]
  ]

  -- A store that cannot be read has no insight.
  unfoldable pub insight_in : Option S → String → Option AiCallInsight
  unfolding to_insight
  insight_in none call_id = none
  insight_in (some store) call_id = elim (lib.fetch store call_id) [
    | none ↦ none
    | some found ↦ Option.map to_insight found
  ]

  unfoldable pub insight : AiState M S → String → Option AiCallInsight
  unfolding insight_in
  insight ai call_id = insight_in ai.store call_id

  abbrev is_deleted : Option Bool → Bool
  is_deleted none = false
  is_deleted (some b) = b

  unfoldable pub delete_insight : AiState M S → String → AiState M S × Bool
  delete_insight ai call_id = elim ai.store [
    | none ↦ (ai, false)
    | some store ↦
        let (store', deleted) = lib.delete store call_id in
        (record ai { store = some store' }, is_deleted deleted)
  ]

  abbrev cleared_count : Option ℕ → ℕ
  cleared_count none = 0
  cleared_count (some n) = n

  unfoldable pub clear_insights : AiState M S → AiState M S × ℕ
  clear_insights ai = elim ai.store [
    | none ↦ (ai, 0)
    | some store ↦
        let (store', n) = lib.clear store in (record ai { store = some store' }, cleared_count n)
  ]
