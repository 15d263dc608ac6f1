-- ===== src/Engine/Ai.antt =====
-- src/lib.rs, the on-device AI as the app asks for it, with the `ai` feature on; the state of src/ai.rs
-- is in `Engine.Ai.State`, its insights and models in `Engine.Ai.Stored`. `Engine.Ai.Off` is a build
-- without the feature.
pub mod Library
pub mod State
pub mod Stored
pub mod Detached
pub mod Asked
pub mod Off
pub mod Kept
pub mod Recalled
pub mod Tapping
pub mod Steps
use aria_mobile_core.Base.{
  ℕ, ◌==◌, if◌then◌else◌, Bool, false, String, Option, none, some, List, [], length,
}
use aria_mobile_core.Base.Dict.{get, modify}
use aria_mobile_core.Types.{MobileError, Result, ok, err}
use aria_mobile_core.Types.Insights.{AiCallInsight, AiDownloadProgress, AiInsightSummary, AiModel}
use aria_mobile_core.Media.{MobileMediaSession, set_ai_tap}
use aria_mobile_core.Engine.State.{ActiveCallState, Engine}
use Library.{AiLib}
use State
use State.{AiState, Device}
use Stored

-- The engine with its AI, none until `ai_init`.
pub record AiEngine (M S : Type 0) : Type 0 where
  pub engine : Engine
  pub ai : Option (AiState M S)

abbrev pub tap_media : Option ℕ → Option MobileMediaSession → Option MobileMediaSession
tap_media tap none = none
tap_media tap (some media) = some (set_ai_tap media tap)

abbrev pub tap_call : Option ℕ → ActiveCallState → ActiveCallState
tap_call tap call = record call { media = tap_media tap call.media }

unfoldable pub set_call_tap : Engine → String → Option ℕ → Engine
set_call_tap e call_id tap = record e { calls = modify call_id (tap_call tap) e.calls }

-- A key that is there has 32 bytes.
abbrev pub is_key : Option (List ℕ) → Bool
is_key none = Bool.true
is_key (some key) = length key == 32

module _ {M S : Type 0} where
  abbrev pub attach :
      AiEngine M S → String → ℕ → Option ActiveCallState → AiEngine M S × Result (Unit {0})
  attach e call_id session none = (e, err MobileError.invalid_state)
  attach e call_id session (some call) = elim call.media [
    | none ↦ (e, err MobileError.media_error)
    | some media ↦ (record e { engine = set_call_tap e.engine call_id (some session) }, ok tt)
  ]

  abbrev attach_started :
      AiEngine M S → String → AiState M S × Result ℕ → AiEngine M S × Result (Unit {0})
  attach_started e call_id (ai, err x) = (record e { ai = some ai }, err x)
  attach_started e call_id (ai, ok session) =
      attach (record e { ai = some ai }) call_id session (get call_id e.engine.calls)

  unfoldable pub ai_start_capture :
      AiEngine M S → String → Option ℕ → AiEngine M S × Result (Unit {0})
  unfolding State.start_capture
  ai_start_capture e call_id started = elim e.ai [
    | none ↦ (e, err MobileError.invalid_state)
    | some ai ↦ attach_started e call_id (State.start_capture ai call_id started)
  ]

  abbrev pub stop_in : Option (AiState M S) → String → Option (AiState M S)
  stop_in none call_id = none
  stop_in (some ai) call_id = some (State.stop_capture ai call_id)

  unfoldable pub ai_stop_capture : AiEngine M S → String → AiEngine M S
  ai_stop_capture e call_id = record {
    engine = set_call_tap e.engine call_id none;
    ai = stop_in e.ai call_id;
  }

  abbrev pub discard_in : AiEngine M S → String → Option (AiState M S) → AiEngine M S
  discard_in e call_id none = e
  discard_in e call_id (some ai) = record e { ai = some (State.discard ai call_id) }

  unfoldable pub ai_discard_capture : AiEngine M S → String → AiEngine M S
  unfolding ai_stop_capture
  ai_discard_capture e call_id =
      let stopped = ai_stop_capture e call_id in discard_in stopped call_id stopped.ai

  -- `ai_state()?`: an operation on the state, and its result or the error.
  abbrev pub on_state :
      {R : Type 0}
      → AiEngine M S
      → Option (AiState M S)
      → R
      → (AiState M S → AiState M S × R)
      → AiEngine M S × R
  on_state e none otherwise f = (e, otherwise)
  on_state e (some ai) otherwise f = let done = f ai in (record e { ai = some (done.0) }, done.1)

  -- The same where the state is only read.
  abbrev pub of_state : {R : Type 0} → Option (AiState M S) → R → (AiState M S → R) → R
  of_state none otherwise f = otherwise
  of_state (some ai) otherwise f = f ai

  module _ (lib : AiLib M S) where
    abbrev pub initialised : AiEngine M S → Result (AiState M S) → AiEngine M S × Result (Unit {0})
    initialised e (err x) = (e, err x)
    initialised e (ok ai) = (record e { ai = some ai }, ok tt)

    unfoldable pub ai_init :
        Device → AiEngine M S → String → Option (List ℕ) → AiEngine M S × Result (Unit {0})
    unfolding State.new_state
    ai_init device e storage_dir insight_key =
        if is_key insight_key
        then initialised e (State.new_state lib device storage_dir insight_key)
        else (e, err MobileError.invalid_state)

    unfoldable pub ai_transcribe : AiEngine M S → String → AiEngine M S × Result AiCallInsight
    unfolding ai_stop_capture State.transcribe
    ai_transcribe e call_id =
        let stopped = ai_stop_capture e call_id in
        on_state stopped stopped.ai (err MobileError.invalid_state)
          (λ ai. State.transcribe lib ai call_id)

    unfoldable pub ai_models : AiEngine M S → List AiModel
    ai_models e = of_state e.ai [] (λ ai. Stored.models lib ai)

    unfoldable pub ai_start_download : AiEngine M S → String → AiEngine M S × Result (Unit {0})
    ai_start_download e model_id =
        on_state e e.ai (err MobileError.invalid_state)
          (λ ai. Stored.start_download lib ai model_id)

    unfoldable pub ai_download_progress : AiEngine M S → String → Option AiDownloadProgress
    ai_download_progress e model_id =
        of_state e.ai none (λ ai. Stored.download_progress lib ai model_id)

    unfoldable pub ai_cancel_download : AiEngine M S → String → AiEngine M S
    ai_cancel_download e model_id =
        (on_state e e.ai tt (λ ai. (Stored.cancel_download lib ai model_id, tt))).0

    unfoldable pub ai_delete_model : AiEngine M S → String → AiEngine M S × Result (Unit {0})
    ai_delete_model e model_id =
        on_state e e.ai (err MobileError.invalid_state) (λ ai. Stored.delete_model lib ai model_id)

    unfoldable pub ai_insights : AiEngine M S → ℕ → ℕ → List AiInsightSummary
    ai_insights e limit offset = of_state e.ai [] (λ ai. Stored.insights lib ai limit offset)

    unfoldable pub ai_insight : AiEngine M S → String → Option AiCallInsight
    unfolding Stored.insight
    ai_insight e call_id = of_state e.ai none (λ ai. Stored.insight lib ai call_id)

    unfoldable pub ai_delete_insight : AiEngine M S → String → AiEngine M S × Bool
    unfolding Stored.delete_insight
    ai_delete_insight e call_id = on_state e e.ai false (λ ai. Stored.delete_insight lib ai call_id)

    unfoldable pub ai_clear_insights : AiEngine M S → AiEngine M S × ℕ
    unfolding Stored.clear_insights
    ai_clear_insights e = on_state e e.ai 0 (λ ai. Stored.clear_insights lib ai)
