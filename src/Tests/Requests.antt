-- ===== src/Tests/Requests.antt =====
-- The theorems on the gateway client's requests, at concrete inputs.
use aria_mobile_core.Base.{◌≡◌, refl, ◌==◌, false, if◌then◌else◌, String, none, some, [], ◌∷◌}
use aria_mobile_core.Types.{SipCredentials}
use aria_mobile_core.Gateway.{GatewayClient}
use aria_mobile_core.Gateway.Send.{Response, response, not_connected}
use aria_mobile_core.Gateway.Status.{HttpLib}
use aria_mobile_core.Gateway.Requests.{Operation, request_of}
use aria_mobile_core.Gateway.Requests.Read.{request_of-injective}
use aria_mobile_core.Gateway.Client.{Http}
use aria_mobile_core.Tests.Data.{route_a, route_b}

request_of-injective_example :
    (◌≡◌ {A = String} "key" "key")
    × (Operation.accept_call "ab" "v=0" ≡ Operation.accept_call "ab" "v=0")
request_of-injective_example =
    request_of-injective "key" "key" (Operation.accept_call "ab" "v=0")
      (Operation.accept_call "ab" "v=0") (refl, (refl, tt)) (refl, (refl, tt)) refl

accept_request_test :
    (request_of "key" (Operation.accept_call "ab" "v=0")).path ≡ "/v1/calls/ab/accept"
unfolding request_of
accept_request_test = refl

-- The first instance is down, and the second one connects the call.
abbrev made : Response
made = record { status = 200; content_length = none; body = [] }

abbrev http : Http
http = λ client url r. if client == 1 then not_connected false else response made

abbrev http_lib : HttpLib
http_lib = record {
  show_status = λ s. "";
  decode_device = λ b. none;
  decode_offer = λ b. none;
  decode_made = λ b. some ("ab", "v=0");
  decode_status = λ b. none;
  decode_error = λ b. none;
}

abbrev client : GatewayClient
client = record {
  base_url = "https://gw.example.com";
  http = 0;
  resolved_targets = route_a ∷ route_b ∷ [];
}

abbrev credentials : SipCredentials
credentials = record {
  username = "u";
  password = "p";
  domain = "example.com";
  registrar = none;
  transport = "tls";
  port = 5061;
  auth_username = none;
  display_name = "U";
}
