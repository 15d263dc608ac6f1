-- ===== src/Engine/Ai/Kept.antt =====
-- About src/ai.rs: what one request does to the stored insights, as a history by call id.
use aria_mobile_core.Base.{
  ℕ, ◌≡◌, refl, fun_ext, true, if◌then◌else◌, String, str_eq, Option, none, some, List, [], ◌∷◌,
  is_some, ◌∙◌, arith,
}
use aria_mobile_core.Base.Dict.{Dict, Every, Every-modify, Every-remove, Every-get, get, remove}
use aria_mobile_core.Types.{Result, ok, err}
use aria_mobile_core.Types.Insights.{AiCallInsight}
use aria_mobile_core.Engine.State.{ActiveCallState}
use aria_mobile_core.Engine.Ai.Library.{AiLib, AiLaws, CallInsight, ModelInfo, ModelKind}
use aria_mobile_core.Engine.Ai.State.{
  AiState, CaptureSession, to_insight, stopped_session, transcribed, keep_insight, persist,
  transcribe_taken, summarize_if_possible, stop_capture, transcribe,
}
use aria_mobile_core.Engine.Ai.Stored.{insight_in, delete_insight, clear_insights}
use aria_mobile_core.Engine.Ai.{AiEngine, attach, of_state}
use aria_mobile_core.Engine.Ai.Asked.{Request, Reply}

-- The insight that is kept of each call.
abbrev pub History : Type 0
History = String → Option AiCallInsight

abbrev pub remember : String → Option AiCallInsight → History → History
remember id i h = λ j. if str_eq id j then i else h j

-- What a request does to the history, by its reply.
abbrev pub recall : Request → Reply → History → History
recall (Request.transcribe id) (Reply.transcribed (ok i)) h = remember id (some i) h
recall (Request.forget id) y h = remember id none h
recall Request.clear y h = λ j. none
recall _ y h = h

abbrev pub Answers : Request → Reply → History → Type 0
Answers (Request.lookup id) y h = y ≡ Reply.found (h id)
Answers _ y h = Unit

-- Each lookup of a run is answered by the history that the requests before it have left.
abbrev pub Recalls : List Request → List Reply → History → Type 0
Recalls [] ys h = Unit
Recalls (r ∷ rs) [] h = ⊥
Recalls (r ∷ rs) (y ∷ ys) h = Answers r y h × Recalls rs ys (recall r y h)

module _ {M S : Type 0} (lib : AiLib M S) where
  -- No write of the store fails.
  pub record Writes : Type 0 where
    pub put : (s : S) (i : CallInsight) → (lib.put s i).1 ≡ true
    pub delete : (s : S) (id : String) → is_some (lib.delete s id).1 ≡ true
    pub clear : (s : S) → is_some (lib.clear s).1 ≡ true

  -- The AI is not opened anew, and a session that is started is the call's.
  abbrev pub IsUse : Request → Type 0
  IsUse (Request.init dir key) = ⊥
  IsUse (Request.capture id (some n)) = lib.session_call n ≡ id
  IsUse _ = Unit

  abbrev pub IsCalls : String → CaptureSession → Type 0
  IsCalls id c = lib.session_call c.session ≡ id

  abbrev pub IsFiled : Dict CaptureSession → Type 0
  IsFiled = Every IsCalls

  -- The AI is there with an open store, and each capture is filed under its call.
  abbrev pub IsOpen : Option S → Type 0
  IsOpen none = ⊥
  IsOpen (some s) = Unit

  abbrev pub IsReady : Option (AiState M S) → Type 0
  IsReady none = ⊥
  IsReady (some ai) = IsOpen ai.store × IsFiled ai.sessions

  abbrev pub kept : Option (AiState M S) → History
  kept o = λ id. of_state o none (λ ai. insight_in lib ai.store id)

  -- A request leaves the AI ready, and the history as `recall` says.
  abbrev pub Follows : Option (AiState M S) → (History → History) → Option (AiState M S) → Type 0
  Follows o f o' = IsReady o' × (kept o' ≡ f (kept o))

  pub stop_capture-IsReady :
      (ai : AiState M S) (id : String) → IsReady (some ai) → IsReady (some (stop_capture ai id))
  unfolding stop_capture
  stop_capture-IsReady ai id (u, f) =
      (u, Every-modify IsCalls id stopped_session ai.sessions (λ c h. h) f)

  pub attach-ai :
      (e : AiEngine M S) (id : String) (n : ℕ) (c : Option ActiveCallState)
      → (attach e id n c).0.ai ≡ e.ai
  attach-ai e id n none = refl
  attach-ai e id n (some c) = ground arith

  module _ (laws : AiLaws lib) (writes : Writes) where
    fetch_persisted :
        (s : S) (i : CallInsight)
        → (λ j. insight_in lib (persist lib i (some s)) j)
          ≡ remember i.call_id (some (to_insight i)) (λ j. insight_in lib (some s) j)
    unfolding insight_in
    fetch_persisted s i = fun_ext λ j. ground (arith, laws.fetch_put s i j, writes.put s i)

    insight-call_by :
        (engine : M) (n : ℕ) (o : Option ModelInfo) (i : CallInsight)
        → lib.recommended engine ModelKind.stt ≡ o
        → transcribed lib engine n ≡ ok i
        → i.call_id ≡ lib.session_call n
    insight-call_by engine n none i e h = cc
    insight-call_by engine n (some stt) i e h =
        ground (arith, laws.insight_call n stt.id (summarize_if_possible lib engine))

    keep_insight-Follows :
        (id : String) (engine : M) (sessions : Dict CaptureSession) (o : Option S)
        (r : Result CallInsight)
        → IsOpen o
        → IsFiled sessions
        → ((i : CallInsight) → r ≡ ok i → i.call_id ≡ id)
        → let ai : AiState M S = record { engine = engine; sessions = sessions; store = o } in
          let done = keep_insight lib ai r in
          Follows
            (some ai)
            (recall (Request.transcribe id) (Reply.transcribed done.1))
            (some (done.0))
    keep_insight-Follows id engine sessions none r u f c = absurd u
    keep_insight-Follows id engine sessions (some s) (err x) u f c = ((tt, f), refl)
    keep_insight-Follows id engine sessions (some s) (ok i) u f c =
        ((tt, f), rw (← c i refl) (fetch_persisted s i))

    pub transcribe-Follows :
        (id : String) (ai : AiState M S)
        → IsReady (some ai)
        → let done = transcribe lib ai id in
          Follows
            (some ai)
            (recall (Request.transcribe id) (Reply.transcribed done.1))
            (some (done.0))
    unfolding transcribe
    transcribe-Follows id ai (u, f) =
        by_entry (get id ai.sessions) (λ c e. Every-get IsCalls id ai.sessions e f)
      where
        left : Dict CaptureSession
        left = remove id ai.sessions

        left-IsFiled : IsFiled left
        left-IsFiled = Every-remove IsCalls id ai.sessions f

        by_entry :
            (o : Option CaptureSession)
            → ((c : CaptureSession) → o ≡ some c → lib.session_call c.session ≡ id)
            → let done = transcribe_taken lib (record ai { sessions = left }) o in
              Follows
                (some ai)
                (recall (Request.transcribe id) (Reply.transcribed done.1))
                (some (done.0))
        by_entry none g = ((u, left-IsFiled), refl)
        by_entry (some c) g =
            keep_insight-Follows id ai.engine left ai.store (transcribed lib ai.engine c.session) u
              left-IsFiled
              (λ i e.
                insight-call_by ai.engine c.session (lib.recommended ai.engine ModelKind.stt) i refl
                  e
                ∙ g c refl)

    pub delete-Follows :
        (id : String) (engine : M) (sessions : Dict CaptureSession) (o : Option S)
        → IsOpen o
        → IsFiled sessions
        → let ai : AiState M S = record { engine = engine; sessions = sessions; store = o } in
          Follows (some ai) (remember id none) (some ((delete_insight lib ai id).0))
    unfolding delete_insight insight_in
    delete-Follows id engine sessions none u f = absurd u
    delete-Follows id engine sessions (some s) u f =
        ((tt, f), fun_ext λ j. ground (arith, laws.fetch_delete s id j, writes.delete s id))

    pub clear-Follows :
        (engine : M) (sessions : Dict CaptureSession) (o : Option S)
        → IsOpen o
        → IsFiled sessions
        → let ai : AiState M S = record { engine = engine; sessions = sessions; store = o } in
          Follows (some ai) (λ h j. none) (some ((clear_insights lib ai).0))
    unfolding clear_insights insight_in
    clear-Follows engine sessions none u f = absurd u
    clear-Follows engine sessions (some s) u f =
        ((tt, f), fun_ext λ j. ground (arith, laws.fetch_clear s j, writes.clear s))
