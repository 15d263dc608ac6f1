-- ===== src/Engine/Incoming.antt =====
-- src/lib.rs, offered calls: the push, the entry that is watched, and rejecting.
use aria_mobile_core.Base.{
  ℕ, update, Bool, true, false, not, ◌&&◌, ◌||◌, String, concat, Option, none, some,
}
use aria_mobile_core.Base.Dict.{get, insert, modify, remove}
use aria_mobile_core.Types.{
  CallInfo, CallOffer, CallState, CallDirection, EndReason, Result, ok, err,
}
use aria_mobile_core.Events.{Event}
use aria_mobile_core.Auth
use aria_mobile_core.Gateway.Routes.{Route}
use aria_mobile_core.Gateway.{primary_route}
use aria_mobile_core.Engine.State.{
  Await, Engine, PendingIncoming, Task, emit_ended_on, new_events, send_on, spawn,
}

abbrev pub incoming_id : String → String
incoming_id call_token = concat "incoming-" call_token

abbrev pub incoming_info : CallOffer → CallState → CallInfo
incoming_info offer state = record {
  call_id = incoming_id offer.call_token;
  remote_uri = offer.caller_uri;
  remote_name = offer.caller_name;
  state = state;
  direction = CallDirection.inbound;
  muted = false;
  on_hold = false;
  duration_secs = 0;
  end_reason = none;
}

abbrev new_pending : CallOffer → Route → Bool → ℕ → PendingIncoming
new_pending offer route abandoned cell = record {
  stop = cell;
  route = route;
  info = incoming_info offer CallState.ended;
  events = cell;
  accepting = false;
  abandoned = abandoned;
  rejected = false;
}

abbrev pub mark_pending : Bool → PendingIncoming → PendingIncoming
mark_pending abandoned p = record p {
  abandoned = p.abandoned || abandoned;
  accepting = p.accepting && not abandoned;
}

-- A watch that exists is marked; else a new one is started. The poll of the watch is
-- `Engine.Polls.watch_status`. The number that comes back is that of the call's `CallEvents`.
unfoldable pub watch_incoming : Engine → CallOffer → Route → Bool → Engine × ℕ
watch_incoming e offer route abandoned = elim (get offer.call_token e.pending_incoming) [
  | some existing ↦ (
    record e {
      pending_incoming = modify offer.call_token (mark_pending abandoned) e.pending_incoming;
    },
    existing.events,
  )
  | none ↦ (
    spawn
        (record (new_events e) {
          pending_incoming =
              insert offer.call_token (new_pending offer route abandoned e.fresh)
                e.pending_incoming;
          flag = update e.flag e.fresh false;
        })
        (Task.incoming_watch offer.call_token route e.fresh),
    e.fresh,
  )
]

abbrev pub raise_stop : Engine → Option PendingIncoming → Engine
raise_stop e none = e
raise_stop e (some p) = record e { flag = update e.flag p.stop true }

unfoldable pub take_pending_incoming : Engine → String → Engine × Option PendingIncoming
take_pending_incoming e call_token =
    let entry = get call_token e.pending_incoming in
    (raise_stop (record e { pending_incoming = remove call_token e.pending_incoming }) entry, entry)

-- `offer` is the gateway's answer to `get_call_offer`.
unfoldable pub handle_push_notification :
    Engine → Await (Result (CallOffer × Route)) → Engine × Result CallOffer
unfolding watch_incoming
handle_push_notification e offer = elim (Auth.token e.auth) [
  | err x ↦ (e, err x)
  | ok token ↦ elim offer.answer [
    | err x ↦ (offer.meanwhile e, err x)
    | ok (o, route) ↦
        (send_on (watch_incoming (offer.meanwhile e) o route false).0 (Event.incoming o), ok o)
  ]
]

-- The route that a reject goes to.
unfoldable pub reject_route : Engine → String → Route
reject_route e call_token = elim (get call_token e.pending_incoming) [
  | none ↦ primary_route e.gateway
  | some p ↦ p.route
]

abbrev pub end_rejected : Engine × Option PendingIncoming → Engine
end_rejected (e, none) = e
end_rejected (e, some p) = emit_ended_on e p.events p.info EndReason.rejected

-- `reject` is the gateway's answer on the route `reject_route e call_token`.
unfoldable pub reject_incoming_call :
    Engine → String → Await (Result (Unit {0})) → Engine × Result (Unit {0})
unfolding take_pending_incoming
reject_incoming_call e call_token reject = elim (Auth.token e.auth) [
  | err x ↦ (e, err x)
  | ok token ↦ elim reject.answer [
    | err x ↦ (reject.meanwhile e, err x)
    | ok _ ↦ (end_rejected (take_pending_incoming (reject.meanwhile e) call_token), ok tt)
  ]
]
