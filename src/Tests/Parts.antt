-- ===== src/Tests/Parts.antt =====
-- The theorems on the parts of the engine, at concrete inputs.
use aria_mobile_core.Base.{
  ℕ, ◌≡◌, ◌⊎◌, refl, if◌then◌else◌, any, ◌==◌, ltb, true, false, String, Option, none, some, List,
  [], ◌∷◌, ◌++◌, map, arith,
}
use aria_mobile_core.Types.{CallInfo, CallState, MobileError, ok, err}
use aria_mobile_core.Events.{Dispatcher, Outbox, new_dispatcher, auth_required, error}
use aria_mobile_core.Events.Once.{
  IsCellOf, EndsOnce, emits, pending_of, until_ended, ours, emits-EndsOnce, emits-until_ended,
}
use aria_mobile_core.Auth.{GatewayAuth}
use aria_mobile_core.Auth.Rejection.{reported, reported-once}
use aria_mobile_core.Gateway.Routes.{Route}
use aria_mobile_core.Gateway.Send.{
  Sent, response, not_connected, send_on, read_chunks, max_response_bytes,
}
use aria_mobile_core.Gateway.Send.Failover.{send_on_first_up}
use aria_mobile_core.Gateway.Send.Capped.{read_chunks-joined}
use aria_mobile_core.Gateway.Url.{enforce_https}
use aria_mobile_core.Media.{apply_remote_sdp}
use aria_mobile_core.Media.Srtp.{IsKeyed, apply_remote_sdp-IsKeyed}
use aria_mobile_core.Tests.Data.{info_of, media_lib, route_a, route_b, session}

abbrev outbox_0 : Outbox
outbox_0 = record { dispatcher = new_dispatcher; ended = λ c. false }

-- Two calls, whose reports interleave, and one of which is reported after its end.
abbrev reports : List (ℕ × CallInfo)
reports =
    (0, info_of "a" CallState.connected)
    ∷ (1, info_of "b" CallState.connected)
    ∷ (0, info_of "a" CallState.ended)
    ∷ (0, info_of "a" CallState.held)
    ∷ (1, info_of "b" CallState.held)
    ∷ (0, info_of "a" CallState.ended)
    ∷ []

reports_own : IsCellOf 0 "a" reports
reports_own = (refl, (refl, (refl, (refl, (refl, (refl, tt))))))

emits-EndsOnce_example : EndsOnce (pending_of "a" (emits outbox_0 reports))
unfolding new_dispatcher
emits-EndsOnce_example = emits-EndsOnce 0 "a" outbox_0 reports reports_own refl

emits-until_ended_example :
    pending_of "a" (emits outbox_0 reports)
    ≡ pending_of "a" outbox_0 ++ until_ended (ours "a" reports)
emits-until_ended_example = emits-until_ended 0 "a" outbox_0 reports reports_own refl

abbrev dispatcher_2 : Dispatcher
dispatcher_2 = record {
  handler = some 3;
  pending = auth_required ∷ error "hangup" "why" ∷ [];
  delivered = [];
}

abbrev auth_5 : GatewayAuth
auth_5 = record { token = some "t"; generation = 5; rejection_reported = false }

reported-once_example :
    reported auth_5 (4 ∷ 5 ∷ 5 ∷ []) ≡ (if any (λ g. 5 == g) (4 ∷ 5 ∷ 5 ∷ []) then 1 else 0)
reported-once_example = reported-once auth_5 (4 ∷ 5 ∷ 5 ∷ []) refl

-- The first route is down, the second one answers.
abbrev answers : Route → Sent ℕ
answers r = if r.client == 1 then not_connected true else response 200

abbrev two_routes : List Route
two_routes = route_a ∷ route_b ∷ []

send_on_first_up_example :
    (send_on (route_a ∷ []) answers ≡ (err MobileError.timeout, route_a ∷ []))
    × (send_on (route_a ∷ route_b ∷ route_a ∷ []) answers ≡ (ok (200, route_b), two_routes))
send_on_first_up_example =
    send_on_first_up answers (route_a ∷ []) route_b (route_a ∷ []) ((true, refl), tt) refl

read_chunks-joined_example :
    read_chunks [] (map some ((1 ∷ 2 ∷ []) ∷ (3 ∷ []) ∷ []))
    ≡ (if ltb max_response_bytes 3 then err MobileError.gateway_error else ok (1 ∷ 2 ∷ 3 ∷ []))
read_chunks-joined_example = read_chunks-joined [] ((1 ∷ 2 ∷ []) ∷ (3 ∷ []) ∷ []) (omega arith)

apply_remote_sdp-IsKeyed_example :
    let r = apply_remote_sdp media_lib session "v=0" in
    ((local_key remote_key : String) × (session.offered_srtp_key ≡ some local_key)
      × (media_lib.parse_sdp_crypto "v=0" ≡ some remote_key)
      × ((IsKeyed media_lib r.0 local_key remote_key × (r.1 ≡ ok tt))
          ⊎ ((r.0 ≡ session) × (r.1 ≡ err MobileError.media_error))))
    ⊎ (((session.offered_srtp_key ≡ none) ⊎ (media_lib.parse_sdp_crypto "v=0" ≡ none))
        × (r ≡ (session, ok tt)))
apply_remote_sdp-IsKeyed_example = apply_remote_sdp-IsKeyed media_lib session "v=0"

abbrev bye : Option String
bye = some "bye"

local_host_test : enforce_https "http://gw.local:8080/x" ≡ "http://gw.local:8080/x"
unfolding enforce_https
local_host_test = refl

upgraded_test : enforce_https "http://localhost@example.com/x" ≡ "https://localhost@example.com/x"
unfolding enforce_https
upgraded_test = refl

-- A `?` ends the authority of a URL, and is taken for a part of the host here.
query_host_test : enforce_https "http://example.com?.local" ≡ "http://example.com?.local"
unfolding enforce_https
query_host_test = refl

-- The host of a literal IPv6 address is read up to its first colon.
ipv6_loopback_test : enforce_https "http://[::1]:8080/" ≡ "https://[::1]:8080/"
unfolding enforce_https
ipv6_loopback_test = refl
