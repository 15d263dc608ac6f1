-- ===== src/Engine/Ai/Off.antt =====
-- The build without the `ai` feature: the stand-ins at the end of src/ai.rs, and the functions of
-- src/lib.rs over them.
pub mod Silent
use aria_mobile_core.Base.{ℕ, Bool, false, if◌then◌else◌, String, Option, none, some, List, []}
use aria_mobile_core.Types.{MobileError, Result, ok, err}
use aria_mobile_core.Types.Insights.{AiCallInsight, AiDownloadProgress, AiInsightSummary, AiModel}
use aria_mobile_core.Engine.State.{Engine}
use aria_mobile_core.Engine.Ai.{is_key}
use aria_mobile_core.Engine.Ai.Asked.{Request, Reply}

-- `struct AiState;`
pub data AiState : Type 0 where
  ai_state : AiState

unfoldable pub new_state : String → Option (List ℕ) → Result AiState
new_state storage_dir insight_key = err MobileError.invalid_state

unfoldable pub models : AiState → List AiModel
models ai = []

unfoldable pub start_download : AiState → String → Result (Unit {0})
start_download ai model_id = err MobileError.invalid_state

unfoldable pub download_progress : AiState → String → Option AiDownloadProgress
download_progress ai model_id = none

unfoldable pub delete_model : AiState → String → Result (Unit {0})
delete_model ai model_id = err MobileError.invalid_state

unfoldable pub transcribe : AiState → String → Result AiCallInsight
transcribe ai call_id = err MobileError.invalid_state

unfoldable pub insights : AiState → ℕ → ℕ → List AiInsightSummary
insights ai limit offset = []

unfoldable pub insight : AiState → String → Option AiCallInsight
insight ai call_id = none

unfoldable pub delete_insight : AiState → String → Bool
delete_insight ai call_id = false

unfoldable pub clear_insights : AiState → ℕ
clear_insights ai = 0

pub record OffEngine : Type 0 where
  pub engine : Engine
  pub ai : Option AiState

abbrev pub of_state : {R : Type 0} → Option AiState → R → (AiState → R) → R
of_state none otherwise f = otherwise
of_state (some ai) otherwise f = f ai

abbrev initialised : OffEngine → Result AiState → OffEngine × Result (Unit {0})
initialised e (err x) = (e, err x)
initialised e (ok ai) = (record e { ai = some ai }, ok tt)

unfoldable pub ai_init : OffEngine → String → Option (List ℕ) → OffEngine × Result (Unit {0})
unfolding new_state
ai_init e storage_dir insight_key =
    if is_key insight_key
    then initialised e (new_state storage_dir insight_key)
    else (e, err MobileError.invalid_state)

unfoldable pub ai_start_capture : OffEngine → String → Result (Unit {0})
ai_start_capture e call_id = err MobileError.invalid_state

-- Stopping, discarding and cancelling do nothing: no call is tapped, and the stand-ins are empty.
unfoldable pub ask : Request → OffEngine → OffEngine × Reply
unfolding ai_init ai_start_capture models start_download download_progress delete_model transcribe
    insights insight delete_insight clear_insights
ask (Request.init dir key) e = let (e', r) = ai_init e dir key in (e', Reply.done r)
ask (Request.capture id started) e = (e, Reply.done (ai_start_capture e id))
ask (Request.stop id) e = (e, Reply.nothing)
ask (Request.discard id) e = (e, Reply.nothing)
ask (Request.transcribe id) e =
    (e, Reply.transcribed (of_state e.ai (err MobileError.invalid_state) (λ ai. transcribe ai id)))
ask Request.models e = (e, Reply.models (of_state e.ai [] models))
ask (Request.download id) e =
    (e, Reply.done (of_state e.ai (err MobileError.invalid_state) (λ ai. start_download ai id)))
ask (Request.progress id) e =
    (e, Reply.progress (of_state e.ai none (λ ai. download_progress ai id)))
ask (Request.cancel id) e = (e, Reply.nothing)
ask (Request.uninstall id) e =
    (e, Reply.done (of_state e.ai (err MobileError.invalid_state) (λ ai. delete_model ai id)))
ask (Request.history limit offset) e =
    (e, Reply.history (of_state e.ai [] (λ ai. insights ai limit offset)))
ask (Request.lookup id) e = (e, Reply.found (of_state e.ai none (λ ai. insight ai id)))
ask (Request.forget id) e = (e, Reply.forgotten (of_state e.ai false (λ ai. delete_insight ai id)))
ask Request.clear e = (e, Reply.cleared (of_state e.ai 0 clear_insights))
