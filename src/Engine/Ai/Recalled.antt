-- ===== src/Engine/Ai/Recalled.antt =====
-- About src/ai.rs and src/lib.rs: the stored insights, as a history by call id.
use aria_mobile_core.Base.{refl, false, Option, none, some, List, [], ◌∷◌, All}
use aria_mobile_core.Base.Dict.{Every-insert, Every-remove, get}
use aria_mobile_core.Engine.State.{Engine}
use aria_mobile_core.Engine.Ai.Library.{AiLib, AiLaws}
use aria_mobile_core.Engine.Ai.State.{AiState, Device, start_capture, stop_capture, discard}
use aria_mobile_core.Engine.Ai.Stored.{insight, start_download, cancel_download, delete_model}
use aria_mobile_core.Engine.Ai.{
  AiEngine, ai_start_capture, ai_stop_capture, ai_discard_capture, ai_transcribe, ai_start_download,
  ai_cancel_download, ai_delete_model, ai_insight, ai_delete_insight, ai_clear_insights,
}
use aria_mobile_core.Engine.Ai.Asked.{Request, ask, asks}
use aria_mobile_core.Engine.Ai.Kept.{
  Answers, Recalls, recall, Writes, IsUse, IsCalls, IsReady, Follows, kept, stop_capture-IsReady,
  attach-ai, delete-Follows, clear-Follows, transcribe-Follows,
}

module _ {M S : Type 0} (lib : AiLib M S) (laws : AiLaws lib) (writes : Writes lib)
    (device : Device) where
  ask-Follows :
      (r : Request) (engine : Engine) (o : Option (AiState M S))
      → IsReady lib o
      → IsUse lib r
      → let e : AiEngine M S = record { engine = engine; ai = o } in
        let done = ask lib device r e in
        Follows lib o (recall r done.1) (done.0.ai) × Answers r done.1 (kept lib o)
  unfolding ask ai_start_capture ai_stop_capture ai_discard_capture ai_transcribe ai_start_download
      ai_cancel_download ai_delete_model ai_insight ai_delete_insight ai_clear_insights
      start_capture discard stop_capture insight start_download cancel_download delete_model
  ask-Follows r engine none h u = absurd h
  ask-Follows (Request.init dir key) engine (some ai) h u = absurd u
  ask-Follows (Request.capture id none) engine (some ai) h u = ((h, refl), tt)
  ask-Follows (Request.capture id (some n)) engine (some ai) h u =
      let started = start_capture ai id (some n) in
      let f =
        Every-insert (IsCalls lib) id (record { session = n; stopped = false }) ai.sessions u h.1 in
      (
        rw
            (attach-ai lib (record { engine = engine; ai = some (started.0) }) id n
              (get id engine.calls))
            ((h.0, f), refl),
        tt,
      )
  ask-Follows (Request.stop id) engine (some ai) h u =
      ((stop_capture-IsReady lib ai id h, refl), tt)
  ask-Follows (Request.discard id) engine (some ai) h u =
      let stopped = stop_capture-IsReady lib ai id h in
      (((h.0, Every-remove (IsCalls lib) id (stop_capture ai id).sessions stopped.1), refl), tt)
  ask-Follows (Request.transcribe id) engine (some ai) h u = (
    transcribe-Follows lib laws writes id (stop_capture ai id) (stop_capture-IsReady lib ai id h),
    tt,
  )
  ask-Follows Request.models engine (some ai) h u = ((h, refl), tt)
  ask-Follows (Request.download id) engine (some ai) h u = ((h, refl), tt)
  ask-Follows (Request.progress id) engine (some ai) h u = ((h, refl), tt)
  ask-Follows (Request.cancel id) engine (some ai) h u = ((h, refl), tt)
  ask-Follows (Request.uninstall id) engine (some ai) h u = ((h, refl), tt)
  ask-Follows (Request.history limit offset) engine (some ai) h u = ((h, refl), tt)
  ask-Follows (Request.lookup id) engine (some ai) h u = ((h, refl), refl)
  ask-Follows (Request.forget id) engine (some ai) h u =
      (delete-Follows lib laws writes id ai.engine ai.sessions ai.store h.0 h.1, tt)
  ask-Follows Request.clear engine (some ai) h u =
      (clear-Follows lib laws writes ai.engine ai.sessions ai.store h.0 h.1, tt)

  -- Where no write to the store fails, the stored insights are a history by call id, however requests
  -- other than `ai_init` follow one another once the AI is open, as long as the AI is not opened anew
  -- and every session that a capture starts is of its own call: each
  -- lookup gives what the last transcription of that call returned, if there was one since the
  -- history was cleared or the call's insight deleted, and otherwise what was stored before.
  pub asks-Recalls :
      (rs : List Request) (e : AiEngine M S)
      → IsReady lib e.ai
      → All (IsUse lib) rs
      → Recalls rs (asks lib device rs e).1 (λ id. ai_insight lib e id)
  unfolding asks ai_insight insight
  asks-Recalls [] e h u = tt
  asks-Recalls (r ∷ rs) e h u =
      let one = ask-Follows r e.engine e.ai h u.0 in
      let next = (ask lib device r e).0 in
      (one.1, rw (← one.0.1) (asks-Recalls rs next one.0.0 u.1))
