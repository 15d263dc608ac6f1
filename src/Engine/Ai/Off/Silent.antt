-- ===== src/Engine/Ai/Off/Silent.antt =====
-- About src/ai.rs: a build without the feature against one whose AI cannot be opened.
use aria_mobile_core.Base.{
  ℕ, ◌≡◌, refl, String, str_eq, Option, none, some, List, [], ◌∷◌, inl, inr, arith, Bool-cases,
}
use aria_mobile_core.Base.Dict.{Dict, Every, modify}
use aria_mobile_core.Types.{MobileError, err}
use aria_mobile_core.Media.{MobileMediaSession, set_ai_tap, tap_of}
use aria_mobile_core.Engine.State.{ActiveCallState, Engine}
use aria_mobile_core.Engine.Ai.Library.{AiLib, DeviceCapability}
use aria_mobile_core.Engine.Ai.State.{Device, device_capability, new_state}
use aria_mobile_core.Engine.Ai.{
  AiEngine, tap_media, tap_call, set_call_tap, is_key, ai_init, ai_start_capture, ai_stop_capture,
  ai_discard_capture, ai_transcribe, ai_models, ai_start_download, ai_download_progress,
  ai_cancel_download, ai_delete_model, ai_insights, ai_insight, ai_delete_insight,
  ai_clear_insights,
}
use aria_mobile_core.Engine.Ai.Asked.{Request, Reply, ask, asks}
use aria_mobile_core.Engine.Ai.Off
use aria_mobile_core.Engine.Ai.Off.{OffEngine}

-- No call feeds a capture.
abbrev pub NoTaps : Engine → Type 0
NoTaps e = Every (λ id (c : ActiveCallState). tap_of c.media ≡ none) e.calls

tap_media-none : (m : Option MobileMediaSession) → tap_of m ≡ none → tap_media none m ≡ m
unfolding set_ai_tap
tap_media-none none h = refl
tap_media-none (some m) h = ground arith

modify_untapped :
    (id : String) (m : Dict ActiveCallState)
    → Every (λ id (c : ActiveCallState). tap_of c.media ≡ none) m
    → modify id (tap_call none) m ≡ m
unfolding modify
modify_untapped id [] h = refl
modify_untapped id ((j, c) ∷ m) h = elim (Bool-cases (str_eq j id)) [
  | inl e ↦ rw (e, tap_media-none c.media h.0) refl
  | inr e ↦ rw (e, modify_untapped id m h.1) refl
]

set_call_tap_untapped : (e : Engine) (id : String) → NoTaps e → set_call_tap e id none ≡ e
unfolding set_call_tap
set_call_tap_untapped e id h = rw (modify_untapped id e.calls h) refl

module _ {M S : Type 0} where
  abbrev pub closed : Engine → AiEngine M S
  closed e = record { engine = e; ai = none }

abbrev pub off : Engine → OffEngine
off e = record { engine = e; ai = none }

unfoldable pub asks_off : List Request → OffEngine → OffEngine × List Reply
asks_off [] e = (e, [])
asks_off (r ∷ rs) e =
    let first = Off.ask r e in let rest = asks_off rs first.0 in (rest.0, first.1 ∷ rest.1)

module _ {M S : Type 0} (lib : AiLib M S) (device : Device) where
  abbrev pub CannotOpen : Type 0
  CannotOpen = (dir : String) (c : DeviceCapability) → lib.open_engine dir c ≡ none

  cannot_start :
      (dir : String) (key : Option (List ℕ))
      → CannotOpen
      → new_state lib device dir key ≡ err MobileError.invalid_state
  unfolding new_state device_capability
  cannot_start dir key n = rw (n dir (device_capability device), new_state) refl

  ask-closed :
      (r : Request) (e : Engine)
      → CannotOpen
      → NoTaps e
      → (ask lib device r (closed e) ≡ (closed e, (Off.ask r (off e)).1))
        × ((Off.ask r (off e)).0 ≡ off e)
  unfolding ask Off.ask ai_init ai_start_capture ai_stop_capture ai_discard_capture ai_transcribe
      ai_models ai_start_download ai_download_progress ai_cancel_download ai_delete_model
      ai_insights ai_insight ai_delete_insight ai_clear_insights
  ask-closed (Request.init dir key) e n h = elim (Bool-cases (is_key key)) [
    | inl k ↦ (rw (k, cannot_start dir key n) refl, rw k refl)
    | inr k ↦ (rw k refl, rw k refl)
  ]
  ask-closed (Request.capture id started) e n h = (refl, refl)
  ask-closed (Request.stop id) e n h = (rw (set_call_tap_untapped e id h) refl, refl)
  ask-closed (Request.discard id) e n h = (rw (set_call_tap_untapped e id h) refl, refl)
  ask-closed (Request.transcribe id) e n h = (rw (set_call_tap_untapped e id h) refl, refl)
  ask-closed _ e n h = (refl, refl)

  -- A build without the feature is a build with it where the library cannot be opened: if no call
  -- feeds a capture, then whatever the app asks, both give the same replies, and both leave the engine
  -- as it is, with no AI.
  pub asks_off-eq-asks :
      (rs : List Request) (e : Engine)
      → CannotOpen
      → NoTaps e
      → (asks_off rs (off e) ≡ (off e, (asks lib device rs (closed e)).1))
        × ((asks lib device rs (closed e)).0 ≡ closed e)
  unfolding asks asks_off
  asks_off-eq-asks [] e n h = (refl, refl)
  asks_off-eq-asks (r ∷ rs) e n h =
      let one = ask-closed r e n h in
      let ih = asks_off-eq-asks rs e n h in (rw (one.0, one.1, ih.0) refl, rw (one.0, ih.1) refl)
