-- ===== src/Tests/Data.antt =====
-- The engine and the calls that the tests are about.
use aria_mobile_core.Base.{ℕ, ◌≡◌, refl, true, false, String, eq_iff, none, some, [], ◌∷◌, arith}
use aria_mobile_core.Base.Dict.{get, insert}
use aria_mobile_core.Types.{CallInfo, CallState, CallDirection, CallStatusResponse, pcmu}
use aria_mobile_core.Gateway.Routes.{Route}
use aria_mobile_core.Media.{MediaLib, MobileMediaSession}
use aria_mobile_core.Engine.State.{ActiveCallState, Await, Engine, new_engine}
use aria_mobile_core.Engine.Calls.{hold_others}
use aria_mobile_core.Engine.Controls.Active.{Agrees, OneActive}
use aria_mobile_core.Engine.Dial.Connect.{hold_and_insert-OneActive}

abbrev pub route_a : Route
route_a = record { url = "https://gw-a.example.com"; client = 1 }

abbrev pub route_b : Route
route_b = record { url = "https://gw-b.example.com"; client = 2 }

abbrev pub engine_0 : Engine
engine_0 = new_engine (record { base_url = "https://gw.example.com"; api_key = "key" }) 0

abbrev pub info_of : String → CallState → CallInfo
info_of id s = record {
  call_id = id;
  remote_uri = "sip:1001@example.com";
  remote_name = none;
  state = s;
  direction = CallDirection.inbound;
  muted = false;
  on_hold = false;
  duration_secs = 0;
  end_reason = none;
}

abbrev pub session : MobileMediaSession
session = record {
  remote_addr = record { ip = "192.0.2.1"; port = 4000 };
  local_port = 5000;
  codec = pcmu;
  muted = false;
  on_hold = false;
  running = true;
  ssrc = 7;
  srtp_out = none;
  srtp_in = none;
  offered_srtp_key = some "local";
  ai_tap = none;
}

abbrev pub call_of : String → ℕ → ActiveCallState
call_of id n = record {
  info = info_of id CallState.connected;
  seq = n;
  media = some session;
  call_token = some id;
  route = route_a;
  poll_stop = n;
  events = n;
}

pub call_of-Agrees : (id : String) (n : ℕ) → Agrees (call_of id n)
call_of-Agrees id n = (refl, λ m e. (ground arith, ground arith, ground arith))

-- One call, and then a second one that holds it.
abbrev pub engine_1 : Engine
engine_1 = record engine_0 { calls = ("incoming-a", call_of "a" 1) ∷ [] }

pub engine_1-OneActive : OneActive engine_1.calls
unfolding get
engine_1-OneActive = record {
  one = λ j k c d p q s t. ground (arith, eq_iff "incoming-a" j, eq_iff "incoming-a" k);
  agrees =
      λ j c p. let same : call_of "a" 1 ≡ c = ground arith in rw (← same) (call_of-Agrees "a" 1);
}

abbrev pub engine_2 : Engine
engine_2 = record engine_1 {
  calls = insert "incoming-b" (call_of "b" 2) (hold_others engine_1 "incoming-b").calls;
}

pub engine_2-OneActive : OneActive engine_2.calls
engine_2-OneActive =
    hold_and_insert-OneActive engine_1 "incoming-b" (call_of "b" 2) (call_of-Agrees "b" 2)
      engine_1-OneActive

-- The third-party parts: each key is taken that is not empty, and SDP is a key or an address.
abbrev pub media_lib : MediaLib
media_lib = record {
  parse_sdp_crypto = λ s. some "remote";
  accepts = λ k. true;
  parse_addr = λ s. some (record { ip = s; port = 4000 });
}

abbrev pub status_of : String → CallStatusResponse
status_of s = record { status = s; reason = some "bye"; transfer = none; transfer_code = none }

-- A wait during which nothing else happens.
abbrev pub quiet {ℓ} : {A : Type ℓ} → A → Await A
quiet a = record { meanwhile = λ e. e; answer = a }
