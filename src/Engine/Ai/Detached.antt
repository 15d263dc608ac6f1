-- ===== src/Engine/Ai/Detached.antt =====
-- About src/lib.rs and src/ai.rs: the end of a capture.
use aria_mobile_core.Base.{◌≡◌, refl, String, Option, none, some}
use text.Mathlib.TextPositions.{eq_refl}
use mathlib.Core.Option
use mathlib.Core.Option.{some-injective}
use aria_mobile_core.Base.Dict.{get, remove, get-modify, get-remove}
use aria_mobile_core.Types.{MobileError, Result, ok, err}
use aria_mobile_core.Types.Insights.{AiCallInsight}
use aria_mobile_core.Media.{MobileMediaSession, set_ai_tap, tap_of}
use aria_mobile_core.Engine.State.{ActiveCallState, Engine}
use aria_mobile_core.Engine.Ai.Library.{AiLib, CallInsight}
use aria_mobile_core.Engine.Ai.State.{
  AiState, CaptureSession, stop_capture, stopped_session, transcribe, transcribe_taken,
  keep_insight, transcribed,
}
use aria_mobile_core.Engine.Ai.{
  AiEngine, tap_call, tap_media, set_call_tap, on_state, stop_in, ai_stop_capture, ai_transcribe,
}

abbrev pub IsUntapped : Option ActiveCallState → Type 0
IsUntapped none = Unit
IsUntapped (some c) = tap_of c.media ≡ none

tap_media-untapped : (m : Option MobileMediaSession) → tap_of (tap_media none m) ≡ none
unfolding set_ai_tap
tap_media-untapped none = refl
tap_media-untapped (some m) = refl

set_call_tap-IsUntapped :
    (e : Engine) (id : String) → IsUntapped (get id (set_call_tap e id none).calls)
unfolding set_call_tap
set_call_tap-IsUntapped e id =
    rw (get-modify id id (tap_call none) e.calls, eq_refl id) (by_call (get id e.calls))
  where
    by_call : (o : Option ActiveCallState) → IsUntapped (Option.map (tap_call none) o)
    by_call none = tt
    by_call (some c) = tap_media-untapped c.media

module _ {M S : Type 0} where
  -- There is no capture of the call.
  abbrev pub IsReleased : String → Option (AiState M S) → Type 0
  IsReleased id none = Unit
  IsReleased id (some ai) = get id ai.sessions ≡ none

  remove-IsReleased : (id : String) (ai : AiState M S) → get id (remove id ai.sessions) ≡ none
  remove-IsReleased id ai = rw (get-remove id id ai.sessions, eq_refl id) refl

  on_state-engine :
      {R : Type 0} (e : AiEngine M S) (o : Option (AiState M S)) (r : R)
      (f : AiState M S → AiState M S × R)
      → (on_state e o r f).0.engine ≡ e.engine
  on_state-engine e none r f = refl
  on_state-engine e (some ai) r f = refl

  module _ (lib lib' : AiLib M S) where
    transcribe_taken-sessions :
        (ai : AiState M S) (c : Option CaptureSession)
        → (transcribe_taken lib ai c).0.sessions ≡ ai.sessions
    transcribe_taken-sessions ai none = refl
    transcribe_taken-sessions ai (some c) = by_result (transcribed lib ai.engine c.session)
      where
        by_result : (r : Result CallInsight) → (keep_insight lib ai r).0.sessions ≡ ai.sessions
        by_result (ok i) = refl
        by_result (err x) = refl

    on_state-IsReleased :
        (e : AiEngine M S) (id : String) (o : Option (AiState M S))
        → e.ai ≡ o
        → IsReleased id
            (on_state e o (err MobileError.invalid_state) (λ ai. transcribe lib ai id)).0.ai
    unfolding transcribe
    on_state-IsReleased e id none n = rw n tt
    on_state-IsReleased e id (some ai) n =
        rw
          (transcribe_taken-sessions (record ai { sessions = remove id ai.sessions })
            (get id ai.sessions))
          (remove-IsReleased id ai)

    on_state-err :
        (e : AiEngine M S) (id : String) (o : Option (AiState M S))
        → IsReleased id o
        → (on_state e
            (stop_in o id)
            (err MobileError.invalid_state)
            (λ ai. transcribe lib' ai id)).1
          ≡ err MobileError.invalid_state
    unfolding transcribe stop_capture
    on_state-err e id none h = refl
    on_state-err e id (some ai) h =
        rw (get-modify id id stopped_session ai.sessions, eq_refl id, h) refl

    -- A transcription, whether it succeeds or not, ends the capture of its call: the call's session,
    -- if there is one, feeds no capture afterwards, and the capture is gone, so that another
    -- transcription of the same call fails with an invalid state, even if the first one failed and
    -- whatever models there are by then.
    pub ai_transcribe-IsUntapped :
        (e : AiEngine M S) (id : String)
        → IsUntapped (get id (ai_transcribe lib e id).0.engine.calls)
          × IsReleased id (ai_transcribe lib e id).0.ai
          × ((ai_transcribe lib' (ai_transcribe lib e id).0 id).1 ≡ err MobileError.invalid_state)
    unfolding ai_transcribe
    ai_transcribe-IsUntapped e id =
        let stopped = ai_stop_capture e id in
        let f : AiState M S → AiState M S × Result AiCallInsight = λ ai. transcribe lib ai id in
        let gone = on_state-IsReleased stopped id stopped.ai refl in
        let first = (on_state stopped stopped.ai (err MobileError.invalid_state) f).0 in
        (
          rw (on_state-engine stopped stopped.ai (err MobileError.invalid_state) f)
              (set_call_tap-IsUntapped e.engine id),
          gone,
          on_state-err (ai_stop_capture first id) id first.ai gone,
        )
