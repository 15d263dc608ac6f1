-- ===== src/Engine/State.antt =====
-- The records of src/lib.rs. What the source shares by `Arc` is a cell of a store, known by a number:
-- the `CallEvents` (in `outbox`), the stop flags of the status polls (`flag`), and the channels between
-- `dial` and `hangup` (`dials`). Numbers from `fresh` on are unused.
use aria_mobile_core.Base.{ℕ, ◌+◌, update, Bool, false, String, Option, none, List, [], ◌∷◌, ◌++◌}
use aria_mobile_core.Base.Dict.{Dict}
use aria_mobile_core.Types.{
  AudioCodec, CallInfo, DeviceRegistration, EndReason, GatewayConfig, opus, pcmu, pcma,
}
use aria_mobile_core.Events.{Event, Outbox, emit, emit_ended, new_dispatcher, send}
use aria_mobile_core.Auth.{GatewayAuth, new_auth}
use aria_mobile_core.Gateway.{GatewayClient, new_client}
use aria_mobile_core.Gateway.Routes.{Route}
use aria_mobile_core.Media.{MobileMediaSession}

abbrev pub max_live_calls : ℕ
max_live_calls = 2

abbrev pub remote_ended_backlog : ℕ
remote_ended_backlog = 16

abbrev pub used_outgoing_ids : ℕ
used_outgoing_ids = 256

pub record PendingIncoming : Type 0 where
  pub stop : ℕ
  pub route : Route
  pub info : CallInfo
  pub events : ℕ
  pub accepting : Bool
  pub abandoned : Bool
  pub rejected : Bool

-- `dial` names the channels of the call: `cancel`, `route`, `request_done`, `cancel_outcome`.
pub record PendingOutgoing : Type 0 where
  pub info : CallInfo
  pub seq : ℕ
  pub events : ℕ
  pub client_ref : String
  pub dialing : Bool
  pub dial : ℕ

-- What the channels of one outgoing call hold so far.
pub record DialCells : Type 0 where
  pub cancel : Bool
  pub route : Option Route
  pub request_done : Bool
  pub cancel_outcome : Option Bool

abbrev pub new_cells : DialCells
new_cells = record { cancel = false; route = none; request_done = false; cancel_outcome = none }

pub record OutgoingCalls : Type 0 where
  pub ringing : Dict PendingOutgoing
  pub used : List (String × Bool)

pub record ActiveCallState : Type 0 where
  pub info : CallInfo
  pub seq : ℕ
  pub media : Option MobileMediaSession
  pub call_token : Option String
  pub route : Route
  pub poll_stop : ℕ
  pub events : ℕ

pub record HeartbeatState : Type 0 where
  pub running : Bool
  pub requested : Bool

-- What a cancelled call's hangup waits for: the answer of a request that is still in flight, or a call
-- that is known to have been answered.
pub data Answered : Type 0 where
  in_flight : Answered
  known : String → Route → Answered

-- The background work that the engine starts, on the runtime or as threads.
pub data Task : Type 0 where
  hang_up : Route → String → String → Task
  hang_up_if_answered : String → Answered → ℕ → Task
  cancel_call : CallInfo → String → ℕ → Task
  call_status_poll : String → String → Route → ℕ → Task
  incoming_watch : String → Route → ℕ → Task
  rtp_loops : String → ℕ → Task
  heartbeats : Task

pub record Engine : Type 0 where
  pub gateway : GatewayClient
  pub outbox : Outbox
  pub audio_bridge : Option ℕ
  pub calls : Dict ActiveCallState
  pub pending_incoming : Dict PendingIncoming
  pub outgoing : OutgoingCalls
  pub accepting : List String
  pub next_seq : ℕ
  pub auth : GatewayAuth
  pub device_id : Option String
  pub heartbeat : HeartbeatState
  pub codec_prefs : List AudioCodec
  pub last_registration : Option DeviceRegistration
  pub remote_ended : List String
  pub flag : ℕ → Bool
  pub dials : ℕ → DialCells
  pub fresh : ℕ
  pub tasks : List Task
  pub stopped : List MobileMediaSession

unfoldable pub new_engine : GatewayConfig → ℕ → Engine
new_engine config http = record {
  gateway = new_client config.base_url http;
  outbox = record { dispatcher = new_dispatcher; ended = λ c. false };
  audio_bridge = none;
  calls = [];
  pending_incoming = [];
  outgoing = record { ringing = []; used = [] };
  accepting = [];
  next_seq = 0;
  auth = new_auth config.api_key;
  device_id = none;
  heartbeat = record { running = false; requested = false };
  codec_prefs = opus ∷ pcmu ∷ pcma ∷ [];
  last_registration = none;
  remote_ended = [];
  flag = λ c. false;
  dials = λ c. new_cells;
  fresh = 0;
  tasks = [];
  stopped = [];
}

-- A wait with no lock held: what the other threads do to the engine meanwhile, and what is awaited.
pub record Await {ℓ} (A : Type ℓ) : Type ℓ where
  pub meanwhile : Engine → Engine
  pub answer : A

abbrev pub emit_on : Engine → ℕ → CallInfo → Engine
emit_on e cell info = record e { outbox = (emit e.outbox cell info).0 }

abbrev pub emit_ended_on : Engine → ℕ → CallInfo → EndReason → Engine
emit_ended_on e cell info reason = record e { outbox = (emit_ended e.outbox cell info reason).0 }

abbrev pub send_on : Engine → Event → Engine
send_on e event = record e {
  outbox = record (e.outbox) { dispatcher = send (e.outbox.dispatcher) event };
}

abbrev pub spawn : Engine → Task → Engine
spawn e t = record e { tasks = e.tasks ++ t ∷ [] }

abbrev pub set_cells : Engine → ℕ → (DialCells → DialCells) → Engine
set_cells e d f = record e { dials = update e.dials d (f (e.dials d)) }

-- `Arc::<CallEvents>::default()`: the cell `e.fresh`.
abbrev pub new_events : Engine → Engine
new_events e = record e {
  outbox = record (e.outbox) { ended = update (e.outbox.ended) (e.fresh) false };
  fresh = e.fresh + 1;
}
