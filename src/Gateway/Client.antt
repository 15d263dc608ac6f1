-- ===== src/Gateway/Client.antt =====
-- src/gateway_client.rs, the requests of `GatewayClient` whole: built in `Gateway.Requests`, sent on the
-- client's routes (`Gateway.Send`) or on one of them, and read in `Gateway.Status`.
pub mod Placed
use aria_mobile_core.Base.{ℕ, Bool, String, Option, List}
use aria_mobile_core.Types.{
  CallOffer, CallStatusResponse, DeviceRegistration, DeviceRegistrationResponse, Result,
  SipCredentials,
}
use aria_mobile_core.Gateway.{GatewayClient, routes}
use aria_mobile_core.Gateway.Routes.{Route, request_url}
use aria_mobile_core.Gateway.Send.{Sent, Response, send_on}
use aria_mobile_core.Gateway.Requests.{Operation, Request, request_of}
use aria_mobile_core.Gateway.Status
use aria_mobile_core.Gateway.Status.{HttpLib}

-- The HTTP library: how a request to a URL ends, by the handle of the HTTP client.
abbrev pub Http : Type 0
Http = ℕ → String → Request → Sent Response

abbrev pub perform : Http → String → Operation → Route → Sent Response
perform http token op route =
    let r = request_of token op in http route.client (request_url route r.path) r

module _ (http : Http) (lib : HttpLib) (g : GatewayClient) (token : String) where
  -- `send`: on the routes of the client, in turn.
  abbrev pub send : Operation → Result (Response × Route) × List Route
  send op = send_on (routes g) (perform http token op)

  unfoldable pub register_device : DeviceRegistration → Result DeviceRegistrationResponse
  register_device registration =
      Status.register_device lib token (send (Operation.register_device registration)).0

  unfoldable pub device_heartbeat : String → Result (Unit {0})
  device_heartbeat device_id =
      Status.device_heartbeat (send (Operation.device_heartbeat device_id)).0

  unfoldable pub unregister_device : String → Result (Unit {0})
  unregister_device device_id =
      Status.unregister_device (send (Operation.unregister_device device_id)).0

  unfoldable pub get_call_offer : String → Result (CallOffer × Route)
  get_call_offer call_token =
      Status.get_call_offer lib (send (Operation.get_call_offer call_token)).0

  unfoldable pub make_call :
      String
      → String
      → SipCredentials
      → String
      → Option Route
      → Option Route
      → Result (String × String × Route) × List Route × Option Route
  make_call destination_uri sdp_offer credentials client_ref attempt pin =
      Status.make_call lib (routes g) pin attempt
        (perform http token (Operation.make_call destination_uri sdp_offer credentials client_ref))

module _ (http : Http) (lib : HttpLib) (route : Route) (token : String) where
  unfoldable pub accept_call : String → String → Result (Unit {0})
  accept_call call_token sdp_answer =
      Status.accept_call lib
        (perform http token (Operation.accept_call call_token sdp_answer) route)

  unfoldable pub reject_call : String → Result (Unit {0})
  reject_call call_token =
      Status.reject_call lib (perform http token (Operation.reject_call call_token) route)

  unfoldable pub cancel_call : String → Result Bool
  cancel_call client_ref =
      Status.cancel_call (perform http token (Operation.cancel_call client_ref) route)

  unfoldable pub get_call_status : String → Result CallStatusResponse
  get_call_status call_token =
      Status.get_call_status lib (perform http token (Operation.get_call_status call_token) route)

  unfoldable pub hangup_call : String → Result (Unit {0})
  hangup_call call_token =
      Status.hangup_call lib (perform http token (Operation.hangup_call call_token) route)

  unfoldable pub transfer_call : String → String → Result (Unit {0})
  transfer_call call_token target =
      Status.transfer_call (perform http token (Operation.transfer_call call_token target) route)

  unfoldable pub transfer_attended : String → String → Result (Unit {0})
  transfer_attended call_token replaces_token =
      Status.transfer_attended lib
        (perform http token (Operation.transfer_attended call_token replaces_token) route)
