-- ===== src/Engine/Ai/Asked.antt =====
-- What the app can ask of the on-device AI, as data: each is one function of src/lib.rs.
use aria_mobile_core.Base.{ℕ, Bool, String, Option, List, [], ◌∷◌}
use aria_mobile_core.Types.{Result}
use aria_mobile_core.Types.Insights.{AiCallInsight, AiDownloadProgress, AiInsightSummary, AiModel}
use aria_mobile_core.Engine.Ai.Library.{AiLib}
use aria_mobile_core.Engine.Ai.State.{Device}
use aria_mobile_core.Engine.Ai.{
  AiEngine, ai_init, ai_start_capture, ai_stop_capture, ai_discard_capture, ai_transcribe,
  ai_models, ai_start_download, ai_download_progress, ai_cancel_download, ai_delete_model,
  ai_insights, ai_insight, ai_delete_insight, ai_clear_insights,
}

-- `capture` has the session that the library starts, if it does.
pub data Request : Type 0 where
  init : String → Option (List ℕ) → Request
  capture : String → Option ℕ → Request
  stop discard transcribe : String → Request
  models : Request
  download progress cancel uninstall : String → Request
  history : ℕ → ℕ → Request
  lookup forget : String → Request
  clear : Request

pub data Reply : Type 0 where
  nothing : Reply
  done : Result (Unit {0}) → Reply
  transcribed : Result AiCallInsight → Reply
  models : List AiModel → Reply
  progress : Option AiDownloadProgress → Reply
  history : List AiInsightSummary → Reply
  found : Option AiCallInsight → Reply
  forgotten : Bool → Reply
  cleared : ℕ → Reply

module _ {M S : Type 0} (lib : AiLib M S) (device : Device) where
  unfoldable pub ask : Request → AiEngine M S → AiEngine M S × Reply
  ask (Request.init dir key) e = let (e', r) = ai_init lib device e dir key in (e', Reply.done r)
  ask (Request.capture id started) e =
      let (e', r) = ai_start_capture e id started in (e', Reply.done r)
  ask (Request.stop id) e = (ai_stop_capture e id, Reply.nothing)
  ask (Request.discard id) e = (ai_discard_capture e id, Reply.nothing)
  ask (Request.transcribe id) e = let (e', r) = ai_transcribe lib e id in (e', Reply.transcribed r)
  ask Request.models e = (e, Reply.models (ai_models lib e))
  ask (Request.download id) e = let (e', r) = ai_start_download lib e id in (e', Reply.done r)
  ask (Request.progress id) e = (e, Reply.progress (ai_download_progress lib e id))
  ask (Request.cancel id) e = (ai_cancel_download lib e id, Reply.nothing)
  ask (Request.uninstall id) e = let (e', r) = ai_delete_model lib e id in (e', Reply.done r)
  ask (Request.history limit offset) e = (e, Reply.history (ai_insights lib e limit offset))
  ask (Request.lookup id) e = (e, Reply.found (ai_insight lib e id))
  ask (Request.forget id) e = let (e', b) = ai_delete_insight lib e id in (e', Reply.forgotten b)
  ask Request.clear e = let (e', n) = ai_clear_insights lib e in (e', Reply.cleared n)

  -- The requests of a run, and their replies.
  unfoldable pub asks : List Request → AiEngine M S → AiEngine M S × List Reply
  asks [] e = (e, [])
  asks (r ∷ rs) e = let first = ask r e in let rest = asks rs first.0 in (rest.0, first.1 ∷ rest.1)
