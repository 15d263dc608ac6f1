-- ===== src/Engine/Ai/Steps.antt =====
-- src/lib.rs: the steps of the engine's threads, with the app's requests to the on-device AI among them.
use aria_mobile_core.Base.{
  ℕ, ◌≡◌, subst, String, str_eq, eq_iff, Option, none, some, inl, inr, arith, Bool-cases,
  Option-cases,
}
use aria_mobile_core.Base.Dict.{get, get-modify}
use aria_mobile_core.Types.{GatewayConfig}
use aria_mobile_core.Media.{MobileMediaSession, set_ai_tap, tap_of}
use aria_mobile_core.Engine.State.{ActiveCallState, Engine, new_engine}
use aria_mobile_core.Engine.Steps.{Step, IsWellFormed}
use aria_mobile_core.Engine.Steps.Reached.{Step-IsWellFormed, new_engine-IsWellFormed}
use aria_mobile_core.Engine.Steps
use aria_mobile_core.Engine.Steps.Taps.{Taps}
use aria_mobile_core.Engine.Steps.Tapped.{Step-Taps}
use aria_mobile_core.Engine.Ai.Library.{AiLib}
use aria_mobile_core.Engine.Ai.State.{AiState, Device}
use aria_mobile_core.Engine.Ai.{AiEngine, set_call_tap, tap_call, tap_media}
use aria_mobile_core.Engine.Ai.Asked.{Request, ask}
use aria_mobile_core.Engine.Ai.Tapping.{set_call_tap-IsWellFormed, ask-TapsOnly}

module _ {M S : Type 0} where
  -- A session that is started is for the call of the request.
  abbrev pub IsStarted : AiLib M S → Request → Type 0
  IsStarted lib (Request.capture id (some n)) = lib.session_call n ≡ id
  IsStarted lib _ = Unit

  -- The steps of the engine's threads, which know nothing of the AI, and the requests of the app.
  pub data AiStep (lib : AiLib M S) (device : Device) : AiEngine M S → AiEngine M S → Type 0 where
    step :
        {e e' : Engine} (ai : Option (AiState M S))
        → Step e e'
        → AiStep lib device (record { engine = e; ai = ai }) (record { engine = e'; ai = ai })
    asking :
        (e : AiEngine M S) (r : Request)
        → IsStarted lib r
        → AiStep lib device e (ask lib device r e).0

  pub data AiReach (lib : AiLib M S) (device : Device) : AiEngine M S → AiEngine M S → Type 0 where
    here : (e : AiEngine M S) → AiReach lib device e e
    next :
        {e e1 e2 : AiEngine M S}
        → AiStep lib device e e1
        → AiReach lib device e1 e2
        → AiReach lib device e e2

  -- A call that feeds a capture feeds one that was started for it.
  abbrev pub FeedsOwn : AiLib M S → String → Option ℕ → Type 0
  FeedsOwn lib id tap = (n : ℕ) → tap ≡ some n → lib.session_call n ≡ id

  module _ (lib : AiLib M S) (device : Device) where
    ask-IsWellFormed :
        (r : Request) (e : AiEngine M S)
        → IsWellFormed e.engine
        → IsWellFormed (ask lib device r e).0.engine
    ask-IsWellFormed r e h = elim (ask-TapsOnly lib device r e) [
      | inl p ↦ rw p h
      | inr (id, tap, p, _) ↦ rw p (set_call_tap-IsWellFormed e.engine id tap h)
    ]

    tap_media-FeedsOwn :
        (id : String) (tap : Option ℕ) (o : Option MobileMediaSession)
        → FeedsOwn lib id tap
        → FeedsOwn lib id (tap_of (tap_media tap o))
    unfolding set_ai_tap
    tap_media-FeedsOwn id tap none f n p = cc
    tap_media-FeedsOwn id tap (some m) f n p = f n p

    set_call_tap-FeedsOwn :
        (e : Engine) (id : String) (tap : Option ℕ)
        → FeedsOwn lib id tap
        → Taps (FeedsOwn lib) e.calls
        → Taps (FeedsOwn lib) (set_call_tap e id tap).calls
    unfolding set_call_tap
    set_call_tap-FeedsOwn e id tap f h j c p = elim (Option-cases (get j e.calls)) [
      | inl n ↦ ground (arith, get-modify id j (tap_call tap) e.calls)
      | inr (d, n) ↦ elim (Bool-cases (str_eq id j)) [
        | inl t ↦
            let same : tap_call tap d ≡ c =
              ground (arith, get-modify id j (tap_call tap) e.calls) in
            rw (← same) (
              subst (λ i. FeedsOwn lib i (tap_of (tap_media tap d.media))) ((eq_iff id j).0 t)
                (tap_media-FeedsOwn id tap d.media f))
        | inr t ↦ h j c (ground (arith, get-modify id j (tap_call tap) e.calls))
      ]
    ]

    ask-FeedsOwn :
        (r : Request) (e : AiEngine M S)
        → IsStarted lib r
        → Taps (FeedsOwn lib) e.engine.calls
        → Taps (FeedsOwn lib) (ask lib device r e).0.engine.calls
    ask-FeedsOwn r e u h = elim (ask-TapsOnly lib device r e) [
      | inl p ↦ rw p h
      | inr (id, tap, p, g) ↦
          rw p (set_call_tap-FeedsOwn e.engine id tap (λ n q. subst (IsStarted lib) (g n q) u) h)
    ]

    AiStep_keeps :
        (e e' : AiEngine M S)
        → AiStep lib device e e'
        → IsWellFormed e.engine × Taps (FeedsOwn lib) e.engine.calls
        → IsWellFormed e'.engine × Taps (FeedsOwn lib) e'.engine.calls
    AiStep_keeps _ _ (AiStep.step {e} {e'} ai s) (w, t) =
        (Step-IsWellFormed e e' s w, Step-Taps (FeedsOwn lib) (λ id n p. cc) e e' s t)
    AiStep_keeps _ _ (AiStep.asking e r u) (w, t) = (ask-IsWellFormed r e w, ask-FeedsOwn r e u t)

    AiReach_keeps :
        (e e' : AiEngine M S)
        → AiReach lib device e e'
        → IsWellFormed e.engine × Taps (FeedsOwn lib) e.engine.calls
        → IsWellFormed e'.engine × Taps (FeedsOwn lib) e'.engine.calls
    AiReach_keeps _ _ (AiReach.here e) h = h
    AiReach_keeps _ _ (AiReach.next {e} {e1} {e2} s r) h =
        AiReach_keeps e1 e2 r (AiStep_keeps e e1 s h)

    -- However the app's requests to the on-device AI interleave with the steps of the engine's
    -- threads, from a new engine on: if each session that a request starts is for the call that the
    -- request names, and no session that is opened for a call feeds a capture yet, then every call
    -- that feeds a capture feeds one that was started for that call, and the engine is still
    -- well-formed: at most one call is off hold, every session is held and muted as reported, and
    -- the memories of used ids and of remote hangups keep their bounds.
    pub new_engine-FeedsOwn :
        (config : GatewayConfig) (http : ℕ) (e : AiEngine M S)
        → AiReach lib device (record { engine = new_engine config http; ai = none }) e
        → IsWellFormed e.engine × Taps (FeedsOwn lib) e.engine.calls
    unfolding new_engine get
    new_engine-FeedsOwn config http e r =
        AiReach_keeps (record { engine = new_engine config http; ai = none }) e r
          (
            new_engine-IsWellFormed config http (new_engine config http)
                (Steps.Reach.here (new_engine config http)),
            λ j c p. absurd_get p,
          )
      where
        absurd_get : {A : Type 0} {c : ActiveCallState} → none ≡ some c → A
        absurd_get p = cc
