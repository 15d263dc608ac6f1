-- ===== src/Engine/Outgoing.antt =====
-- src/lib.rs, outgoing calls: `reserve_outgoing`. What `dial` does with the call is in `Engine.Dial`.
pub mod Reserve
pub mod Unmade
use aria_mobile_core.Base.{
  ℕ, ◌+◌, ltb, leb, u64, if◌then◌else◌, any, Bool, true, false, not, ◌&&◌, ◌||◌, String, str_eq,
  Option, none, some, is_some, or_else, List, [], ◌∷◌, ◌++◌,
}
use aria_mobile_core.Base.Dict.{Dict, get, contains_key, insert, modify, remove}
use aria_mobile_core.Types.{
  AudioCodec, CallInfo, CallState, CallDirection, EndReason, MobileError, Result, ok, err,
}
use aria_mobile_core.Auth
use aria_mobile_core.Gateway.Routes.{Route}
use aria_mobile_core.Engine.State.{
  Engine, OutgoingCalls, PendingIncoming, PendingOutgoing, emit_on, max_live_calls, new_cells,
  new_events, set_cells,
}
use aria_mobile_core.Engine.Calls.{live_call_count, live_call_route}
use aria_mobile_core.Engine.Ids.{clear_used, mark_used, outgoing_client_ref, used}

abbrev pub contains : List String → String → Bool
contains l s = any (λ t. str_eq t s) l

-- The route of a call that is still being accepted, among the offered ones.
abbrev pub accepting_route : Dict PendingIncoming → List String → Option Route
accepting_route [] accepting = none
accepting_route ((token, p) ∷ m) accepting =
    if p.accepting && contains accepting token then some p.route else accepting_route m accepting

abbrev pub outgoing_info : String → String → CallInfo
outgoing_info call_id uri = record {
  call_id = call_id;
  remote_uri = uri;
  remote_name = none;
  state = CallState.ringing;
  direction = CallDirection.outbound;
  muted = false;
  on_hold = false;
  duration_secs = 0;
  end_reason = none;
}

-- What `dial` carries on: the token, the ref, the call's `CallEvents` and channels, and its pin.
pub record ReservedOutgoing : Type 0 where
  pub token : String
  pub info : CallInfo
  pub client_ref : String
  pub events : ℕ
  pub dial : ℕ
  pub pin : Option Route

abbrev pub new_pending : Engine → String → String → String → PendingOutgoing
new_pending e call_id uri client_ref = record {
  info = outgoing_info call_id uri;
  seq = e.next_seq;
  events = e.fresh;
  client_ref = client_ref;
  dialing = false;
  dial = e.fresh;
}

-- The tests of `reserve_outgoing` are over: the call is put in place and reported `Ringing`.
abbrev pub place_outgoing :
    Engine → String → String → String → String → Option Route → Engine × Result ReservedOutgoing
place_outgoing e call_id uri client_ref token pin =
    let cell = e.fresh in
    let info = outgoing_info call_id uri in
    let marked = mark_used e.outgoing call_id false in
    let e1 : Engine = record (new_events e) {
      outgoing = record marked {
        ringing = insert call_id (new_pending e call_id uri client_ref) marked.ringing;
      };
      next_seq = u64 (e.next_seq + 1);
    } in
    (
      emit_on (set_cells e1 cell (λ c. new_cells)) cell info,
      ok (record {
        token = token;
        info = info;
        client_ref = client_ref;
        events = cell;
        dial = cell;
        pin = pin;
      }),
    )

abbrev pub reserve_checked : Engine → String → String → String → Engine × Result ReservedOutgoing
reserve_checked e call_id uri client_ref =
    let pin : Option Route =
      or_else (live_call_route e.dials e.calls e.outgoing)
        (accepting_route e.pending_incoming e.accepting) in
    if leb max_live_calls (live_call_count e.calls e.outgoing e.accepting)
    then (e, err MobileError.invalid_state)
    else elim (Auth.token e.auth) [
      | err x ↦ (e, err x)
      | ok token ↦ place_outgoing e call_id uri client_ref token pin
    ]

abbrev pub reserve_by_use :
    Engine → String → String → String → Option Bool → Engine × Result ReservedOutgoing
reserve_by_use e call_id uri client_ref (some true) = (
  record e { outgoing = record (e.outgoing) { used = clear_used call_id e.outgoing.used } },
  err MobileError.cancelled_error,
)
reserve_by_use e call_id uri client_ref (some false) = (e, err MobileError.invalid_state)
reserve_by_use e call_id uri client_ref none =
    if contains_key call_id e.calls || contains_key call_id e.outgoing.ringing
    then (e, err MobileError.invalid_state)
    else reserve_checked e call_id uri client_ref

unfoldable pub reserve_outgoing : Engine → String → String → Engine × Result ReservedOutgoing
reserve_outgoing e call_id uri = elim (outgoing_client_ref call_id) [
  | none ↦ (e, err MobileError.invalid_state)
  | some client_ref ↦ reserve_by_use e call_id uri client_ref (used call_id e.outgoing.used)
]
