-- ===== src/Tests/Captures.antt =====
-- The theorems on the on-device AI, at concrete inputs, and a capture without a call.
use aria_mobile_core.Base.{
  ◌≡◌, refl, ℕ, ◌==◌, true, false, ◌&&◌, if◌then◌else◌, String, str_eq, Option, none, some, List,
  [], ◌∷◌, arith,
}
use aria_mobile_core.Base.Dict.{Dict, get, insert, remove, get-insert, get-remove}
use aria_mobile_core.Types.{MobileError, err}
use aria_mobile_core.Types.Insights.{ℤ}
use aria_mobile_core.Engine.State.{Engine, new_engine}
use aria_mobile_core.Engine.Steps.{Reach, IsWellFormed}
use aria_mobile_core.Engine.Steps.Taps.{Taps}
use aria_mobile_core.Engine.Ai.Library.{
  AiLib, AiLaws, CallInsight, InsightStatus, ModelInfo, ModelKind,
}
use aria_mobile_core.Engine.Ai.State.{Device, Target}
use aria_mobile_core.Engine.Ai.{AiEngine, ai_start_capture, ai_transcribe, ai_insight}
use aria_mobile_core.Engine.Ai.Detached.{IsUntapped, IsReleased, ai_transcribe-IsUntapped}
use aria_mobile_core.Engine.Ai.Asked.{Request, ask, asks}
use aria_mobile_core.Engine.Ai.Off.Silent.{closed, off, asks_off, asks_off-eq-asks}
use aria_mobile_core.Engine.Ai.Kept.{Recalls, Writes}
use aria_mobile_core.Engine.Ai.Recalled.{asks-Recalls}
use aria_mobile_core.Engine.Ai.Steps.{AiStep, AiReach, FeedsOwn, new_engine-FeedsOwn}
use aria_mobile_core.Tests.Data.{engine_1}
use aria_mobile_core.Tests.Steps.{config, begun, connected, run}
use aria_mobile_core.Engine.Controls.{set_mute}
use aria_mobile_core.Engine.Accept.{release_accept}

-- An AI library with a speech model, if one is installed, and a store that is a dictionary. Sessions
-- below ten are of the first call.
abbrev Store : Type 0
Store = Dict CallInsight

abbrev call_of_session : ℕ → String
call_of_session n = if n == 7 then "incoming-a" else "incoming-b"

abbrev heard : ℕ → CallInsight
heard n = record {
  call_id = call_of_session n;
  created_at = ℤ.pos n;
  duration_secs = 60;
  transcript = none;
  summary = none;
  status = InsightStatus.transcript_only;
}

abbrev speech : ModelInfo
speech = record { id = "stt"; display_name = "Speech"; kind = ModelKind.stt; size_bytes = 100 }

abbrev speech_for : Option ModelInfo → ModelKind → Option ModelInfo
speech_for m ModelKind.stt = m
speech_for m _ = none

abbrev ai_lib : AiLib (Option ModelInfo) Store
ai_lib = record {
  open_engine = λ dir c. some (some speech);
  open_store = λ dir file key. some [];
  list = λ s limit offset. some [];
  fetch = λ s id. some (get id s);
  delete = λ s id. (remove id s, some true);
  clear = λ s. ([], some 0);
  put = λ s i. (insert i.call_id i s, true);
  installed_models = λ m. [];
  availability = λ m. [];
  start_download = λ m id. (m, true);
  download_progress = λ m id. none;
  cancel_download = λ m id. m;
  delete_model = λ m id. (none, true);
  recommended = speech_for;
  transcriber = λ m id. true;
  summarizer = λ m id. false;
  transcribe = λ n id. true;
  session_call = call_of_session;
  insight = λ n model summarizer. heard n;
}

-- The same where nothing can be opened.
abbrev no_lib : AiLib (Option ModelInfo) Store
no_lib = record ai_lib { open_engine = λ dir c. none }

fetch_put_lem :
    (s : Store) (i : CallInsight) (id : String)
    → some (get id (insert i.call_id i s))
      ≡ (if true && str_eq i.call_id id then some (some i) else some (get id s))
fetch_put_lem s i id = ground (arith, get-insert i.call_id id i s)

fetch_delete_lem :
    (s : Store) (id j : String)
    → some (get j (remove id s)) ≡ (if true && str_eq id j then some none else some (get j s))
fetch_delete_lem s id j = ground (arith, get-remove id j s)

fetch_clear_lem : (s : Store) (j : String) → some (get {V = CallInsight} j []) ≡ some none
unfolding get
fetch_clear_lem s j = refl

ai_laws : AiLaws ai_lib
ai_laws = record {
  fetch_put = fetch_put_lem;
  fetch_delete = fetch_delete_lem;
  fetch_clear = fetch_clear_lem;
  insight_call = λ n model summarizer. refl;
}

ai_writes : Writes ai_lib
ai_writes = record { put = λ s i. refl; delete = λ s id. refl; clear = λ s. refl }

abbrev device : Device
device = record { target = Target.ios; is_64bit = true; parallelism = some 6 }

abbrev ai_engine : AiEngine (Option ModelInfo) Store
ai_engine = record {
  engine = engine_1;
  ai = some (record { engine = some speech; sessions = []; store = some [] });
}

abbrev capturing : AiEngine (Option ModelInfo) Store
capturing = (ai_start_capture ai_engine "incoming-a" (some 7)).0

ai_transcribe-IsUntapped_example :
    IsUntapped (get "incoming-a" (ai_transcribe no_lib capturing "incoming-a").0.engine.calls)
    × IsReleased "incoming-a" (ai_transcribe no_lib capturing "incoming-a").0.ai
    × ((ai_transcribe ai_lib (ai_transcribe no_lib capturing "incoming-a").0 "incoming-a").1
        ≡ err MobileError.invalid_state)
ai_transcribe-IsUntapped_example = ai_transcribe-IsUntapped no_lib ai_lib capturing "incoming-a"

-- A capture of a call that is not there is refused, but stays.
missing_call_test :
    ((ai_start_capture ai_engine "incoming-z" (some 7)).1 ≡ err MobileError.invalid_state)
    × ((ai_start_capture ai_engine "incoming-z" (some 7)).0.ai
        ≡ some (record {
          engine = some speech;
          sessions = ("incoming-z", record { session = 7; stopped = false }) ∷ [];
          store = some [];
        }))
unfolding ai_start_capture new_engine get insert
missing_call_test = (refl, refl)

-- The app records a call, transcribes it, looks it up, forgets it and looks again.
abbrev recording : List Request
recording =
    Request.capture "incoming-a" (some 7)
    ∷ Request.stop "incoming-a"
    ∷ Request.transcribe "incoming-a"
    ∷ Request.lookup "incoming-a"
    ∷ Request.forget "incoming-a"
    ∷ Request.lookup "incoming-a"
    ∷ []

asks-Recalls_example :
    Recalls recording
      (asks ai_lib device recording ai_engine).1
      (λ id. ai_insight ai_lib ai_engine id)
asks-Recalls_example =
    asks-Recalls ai_lib ai_laws ai_writes device recording ai_engine (tt, tt)
      (refl, (tt, (tt, (tt, (tt, (tt, tt))))))

abbrev asked : List Request
asked = Request.init "/data" none ∷ Request.models ∷ recording

asks_off-eq-asks_example :
    (asks_off asked (off engine_1) ≡ (off engine_1, (asks no_lib device asked (closed engine_1)).1))
    × ((asks no_lib device asked (closed engine_1)).0 ≡ closed engine_1)
asks_off-eq-asks_example = asks_off-eq-asks no_lib device asked engine_1 (λ dir c. refl) (refl, tt)

-- A run of the engine's threads, and then requests to the AI.
and_then :
    {e e' : Engine} {x : AiEngine (Option ModelInfo) Store}
    → Reach e e'
    → AiReach ai_lib device (closed e') x
    → AiReach ai_lib device (closed e) x
and_then (Reach.here e) r = r
and_then (Reach.next s q) r = AiReach.next (AiStep.step none s) (and_then q r)

abbrev called : Engine
called = (set_mute (release_accept connected "a") "incoming-a" true).0

abbrev ready : AiEngine (Option ModelInfo) Store
ready = (ask ai_lib device (Request.init "/data" none) (closed called)).0

abbrev captured : AiEngine (Option ModelInfo) Store
captured = (ask ai_lib device (Request.capture "incoming-a" (some 7)) ready).0

abbrev captured_run : AiReach ai_lib device (closed begun) captured
captured_run = and_then run (
    AiReach.next (AiStep.asking (closed called) (Request.init "/data" none) tt) (
      AiReach.next (AiStep.asking ready (Request.capture "incoming-a" (some 7)) refl)
        (AiReach.here captured)))

new_engine-FeedsOwn_example :
    IsWellFormed captured.engine × Taps (FeedsOwn ai_lib) captured.engine.calls
new_engine-FeedsOwn_example = new_engine-FeedsOwn ai_lib device config 0 captured captured_run
