-- ===== src/Engine/Calls/End.antt =====
-- About src/lib.rs, `take_call` and `end_call_locally`: results, and the call map after them.
use aria_mobile_core.Base.{
  ◌≡◌, update, true, false, String, none, some, ◌++◌, Option-cases, inl, inr,
}
use aria_mobile_core.Base.Dict.{get, remove, remove_missing}
use aria_mobile_core.Types.{EndReason}
use aria_mobile_core.Engine.State.{ActiveCallState, Engine, emit_ended_on}
use aria_mobile_core.Engine.Calls.{stop_media, take_call, take_from, end_call_locally}

-- The engine after a call has been taken out: its poll told to stop, its media stopped.
abbrev pub without : Engine → String → ActiveCallState → Engine
without e id c = record e {
  calls = remove id e.calls;
  flag = update e.flag c.poll_stop true;
  stopped = e.stopped ++ stop_media c.media;
}

pub take_call_lem :
    (e : Engine) (id : String) (c : ActiveCallState)
    → get id e.calls ≡ some c
    → take_call e id ≡ (without e id c, some (record c { media = none }))
unfolding take_call
take_call_lem e id c n = rw (n, take_from)

pub end_call_locally-none :
    (e : Engine) (id : String) (r : EndReason)
    → get id e.calls ≡ none
    → end_call_locally e id r ≡ (e, false)
unfolding end_call_locally
end_call_locally-none e id r n = rw (n, take_from)

pub end_call_locally-some :
    (e : Engine) (id : String) (r : EndReason) (c : ActiveCallState)
    → get id e.calls ≡ some c
    → end_call_locally e id r ≡ (emit_ended_on (without e id c) c.events c.info r, true)
unfolding end_call_locally
end_call_locally-some e id r c n = rw (n, take_from)

pub end_call_locally-calls :
    (e : Engine) (id : String) (r : EndReason)
    → (end_call_locally e id r).0.calls ≡ remove id e.calls
end_call_locally-calls e id r = elim (Option-cases (get id e.calls)) [
  | inl n ↦ rw (end_call_locally-none e id r n, remove_missing id e.calls n)
  | inr (c, n) ↦ rw (end_call_locally-some e id r c n)
]
