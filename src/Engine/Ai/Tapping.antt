-- ===== src/Engine/Ai/Tapping.antt =====
-- About src/lib.rs: what a request to the on-device AI does to the engine.
use aria_mobile_core.Base.{
  ℕ, ◌≡◌, refl, sym, ap, ◌∙◌, String, str_eq, Option, none, some, ◌⊎◌, inl, inr, arith, Bool-cases,
  Option-cases,
}
use aria_mobile_core.Base.Dict.{get, get-modify}
use aria_mobile_core.Types.{CallInfo, Result, ok, err}
use aria_mobile_core.Media.{MobileMediaSession, set_ai_tap}
use aria_mobile_core.Engine.State.{ActiveCallState, Engine}
use aria_mobile_core.Engine.Controls.Active.{Agrees}
use aria_mobile_core.Engine.Steps.{IsWellFormed}
use aria_mobile_core.Engine.Ai.Library.{AiLib}
use aria_mobile_core.Engine.Ai.State.{AiState, Device, start_capture, new_state}
use aria_mobile_core.Engine.Ai.{
  AiEngine, attach, initialised, is_key, stop_in, on_state, discard_in, set_call_tap, tap_call,
  tap_media, ai_init, ai_start_capture, ai_stop_capture, ai_discard_capture, ai_transcribe,
  ai_start_download, ai_cancel_download, ai_delete_model, ai_delete_insight, ai_clear_insights,
}
use aria_mobile_core.Engine.Ai.Asked.{Request, ask}

tap_media-source :
    (tap : Option ℕ) (o : Option MobileMediaSession) (m : MobileMediaSession)
    → tap_media tap o ≡ some m
    → (s : MobileMediaSession) × (o ≡ some s)
      × (m.on_hold ≡ s.on_hold)
      × (m.muted ≡ s.muted)
      × (m.running ≡ s.running)
unfolding set_ai_tap
tap_media-source tap none m e = cc
tap_media-source tap (some s) m e = (s, refl, ground arith, ground arith, ground arith)

tap_call-Agrees : (tap : Option ℕ) (c : ActiveCallState) → Agrees c → Agrees (tap_call tap c)
tap_call-Agrees tap c a = (
  a.0,
  λ m e.
      let (s, o, h, u, r) = tap_media-source tap c.media m e in
      let b = a.1 s o in (h ∙ b.0, u ∙ b.1, r ∙ b.2),
)

-- A call of the map behind a change of one call's tap, as it was.
set_call_tap-source :
    (e : Engine) (id : String) (tap : Option ℕ) (j : String) (c : ActiveCallState)
    → get j (set_call_tap e id tap).calls ≡ some c
    → (d : ActiveCallState) × (get j e.calls ≡ some d) × (c.info ≡ d.info) × (Agrees d → Agrees c)
unfolding set_call_tap
set_call_tap-source e id tap j c p = elim (Option-cases (get j e.calls)) [
  | inl n ↦ ground (arith, get-modify id j (tap_call tap) e.calls)
  | inr (d, n) ↦ elim (Bool-cases (str_eq id j)) [
    | inl t ↦
        let same : c ≡ tap_call tap d = ground (arith, get-modify id j (tap_call tap) e.calls) in
        (d, n, rw same refl, λ a. rw same (tap_call-Agrees tap d a))
    | inr t ↦
        let same : c ≡ d = ground (arith, get-modify id j (tap_call tap) e.calls) in
        (d, n, rw same refl, λ a. rw same a)
  ]
]

pub set_call_tap-IsWellFormed :
    (e : Engine) (id : String) (tap : Option ℕ)
    → IsWellFormed e
    → IsWellFormed (set_call_tap e id tap)
unfolding set_call_tap
set_call_tap-IsWellFormed e id tap h = record {
  active = record {
    one = λ j k c d p q s t.
        let (c', p', i, _) = set_call_tap-source e id tap j c p in
        let (d', q', l, _) = set_call_tap-source e id tap k d q in
        h.active.one j k c' d' p' q' (ap (λ (i : CallInfo). i.on_hold) (sym i) ∙ s)
          (ap (λ (i : CallInfo). i.on_hold) (sym l) ∙ t);
    agrees =
        λ j c p. let (d, q, _, a) = set_call_tap-source e id tap j c p in a (h.active.agrees j d q);
  };
  used_bound = h.used_bound;
  ended_bound = h.ended_bound;
}

-- What a request does to the engine: nothing, or it sets one call's tap, to a session only if it
-- starts that session for that call.
abbrev pub TapsOnly : Request → Engine → Engine → Type 0
TapsOnly r e f =
    (f ≡ e)
    ⊎ ((id : String) × (tap : Option ℕ) × (f ≡ set_call_tap e id tap)
        × ((n : ℕ) → tap ≡ some n → r ≡ Request.capture id (some n)))

module _ {M S : Type 0} where
  attach-TapsOnly :
      (e : AiEngine M S) (id : String) (n : ℕ) (o : Option ActiveCallState)
      → TapsOnly (Request.capture id (some n)) e.engine (attach e id n o).0.engine
  attach-TapsOnly e id n none = inl refl
  attach-TapsOnly e id n (some c) = elim (Option-cases c.media) [
    | inl q ↦ inl (rw q refl)
    | inr (m, q) ↦ inr (id, some n, rw q refl, λ k p. ground arith)
  ]

  on_state-engine :
      {R : Type 0} (e : AiEngine M S) (o : Option (AiState M S)) (r : R)
      (f : AiState M S → AiState M S × R)
      → (on_state e o r f).0.engine ≡ e.engine
  on_state-engine e none r f = refl
  on_state-engine e (some ai) r f = refl

  discard_in-engine :
      (e : AiEngine M S) (id : String) (o : Option (AiState M S))
      → (discard_in e id o).engine ≡ e.engine
  discard_in-engine e id none = refl
  discard_in-engine e id (some ai) = refl

  module _ (lib : AiLib M S) (device : Device) where
    initialised-engine :
        (e : AiEngine M S) (r : Result (AiState M S)) → (initialised lib e r).0.engine ≡ e.engine
    initialised-engine e (ok ai) = refl
    initialised-engine e (err x) = refl

    capture-TapsOnly :
        (e : AiEngine M S) (id : String) (started : Option ℕ) (o : Option (AiState M S))
        → e.ai ≡ o
        → TapsOnly (Request.capture id started) e.engine (ai_start_capture e id started).0.engine
    unfolding ai_start_capture start_capture
    capture-TapsOnly e id started none p = inl (rw p refl)
    capture-TapsOnly e id none (some ai) p = inl (rw p refl)
    capture-TapsOnly e id (some n) (some ai) p = rw p (
        attach-TapsOnly (record e { ai = some ((start_capture ai id (some n)).0) }) id n
          (get id e.engine.calls))

    pub ask-TapsOnly :
        (r : Request) (e : AiEngine M S) → TapsOnly r e.engine (ask lib device r e).0.engine
    unfolding ask ai_init ai_stop_capture ai_discard_capture ai_transcribe ai_start_download
        ai_cancel_download ai_delete_model ai_delete_insight ai_clear_insights
    ask-TapsOnly (Request.init dir key) e = elim (Bool-cases (is_key key)) [
      | inl k ↦ inl (rw k (initialised-engine e (new_state lib device dir key)))
      | inr k ↦ inl (rw k refl)
    ]
    ask-TapsOnly (Request.capture id started) e = capture-TapsOnly e id started e.ai refl
    ask-TapsOnly (Request.stop id) e = inr (id, none, refl, λ n p. cc)
    ask-TapsOnly (Request.discard id) e =
        inr (id, none, discard_in-engine _ id (stop_in e.ai id), λ n p. cc)
    ask-TapsOnly (Request.transcribe id) e =
        inr (id, none, on_state-engine (ai_stop_capture e id) (stop_in e.ai id) _ _, λ n p. cc)
    ask-TapsOnly (Request.download id) e = inl (on_state-engine e e.ai _ _)
    ask-TapsOnly (Request.cancel id) e = inl (on_state-engine e e.ai _ _)
    ask-TapsOnly (Request.uninstall id) e = inl (on_state-engine e e.ai _ _)
    ask-TapsOnly (Request.forget id) e = inl (on_state-engine e e.ai _ _)
    ask-TapsOnly Request.clear e = inl (on_state-engine e e.ai _ _)
    ask-TapsOnly _ e = inl refl
