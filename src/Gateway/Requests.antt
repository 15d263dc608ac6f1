-- ===== src/Gateway/Requests.antt =====
-- The requests that the client sends, as it builds them: method, path, bearer token, body and timeout. A
-- body is the record that serde_json writes.
pub mod Read
use aria_mobile_core.Base.{ℕ, ◌*◌, String, concat, Option, none, some}
use aria_mobile_core.Types.{DeviceRegistration, SipCredentials}

pub record RegisterDeviceRequest : Type 0 where
  pub platform : String
  pub push_token : String
  pub bundle_id : Option String
  pub sip_username : String
  pub sip_password : String
  pub sip_domain : String
  pub sip_registrar : Option String
  pub sip_transport : String
  pub sip_port : ℕ
  pub sip_auth_username : Option String
  pub sip_display_name : String

pub record MakeCallRequest : Type 0 where
  pub destination_uri : String
  pub sdp_offer : String
  pub sip_username : String
  pub sip_password : String
  pub sip_domain : String
  pub sip_registrar : Option String
  pub sip_transport : String
  pub sip_port : ℕ
  pub sip_auth_username : Option String
  pub sip_display_name : String
  pub client_ref : String

pub record AcceptCallRequest : Type 0 where
  pub sdp_answer : String

pub record CancelCallRequest : Type 0 where
  pub client_ref : String

pub record TransferCallRequest : Type 0 where
  pub target : String

pub record AttendedTransferRequest : Type 0 where
  pub replaces : String

pub data Body : Type 0 where
  empty : Body
  register : RegisterDeviceRequest → Body
  make : MakeCallRequest → Body
  accept : AcceptCallRequest → Body
  cancel : CancelCallRequest → Body
  transfer : TransferCallRequest → Body
  attended : AttendedTransferRequest → Body

pub data Method : Type 0 where
  get post delete : Method

-- Timeouts in milliseconds.
pub record Request : Type 0 where
  pub method : Method
  pub path : String
  pub bearer : String
  pub body : Body
  pub timeout : ℕ

abbrev pub make_call_timeout : ℕ
make_call_timeout = 45 * 1000

abbrev pub hangup_timeout : ℕ
hangup_timeout = 5 * 1000

abbrev pub request_timeout : ℕ
request_timeout = 30 * 1000

abbrev pub default_request : Method → String → String → Body → Request
default_request method path token body = record {
  method = method;
  path = path;
  bearer = token;
  body = body;
  timeout = request_timeout;
}

-- `format!("/v1/calls/{call_token}{suffix}")`, and the same for devices.
abbrev pub call_path : String → String → String
call_path call_token suffix = concat "/v1/calls/" (concat call_token suffix)

abbrev pub device_path : String → String → String
device_path device_id suffix = concat "/v1/devices/" (concat device_id suffix)

unfoldable pub register_body : DeviceRegistration → RegisterDeviceRequest
register_body registration = record {
  platform = registration.platform;
  push_token = registration.push_token;
  bundle_id = registration.bundle_id;
  sip_username = registration.sip.username;
  sip_password = registration.sip.password;
  sip_domain = registration.sip.domain;
  sip_registrar = registration.sip.registrar;
  sip_transport = registration.sip.transport;
  sip_port = registration.sip.port;
  sip_auth_username = registration.sip.auth_username;
  sip_display_name = registration.sip.display_name;
}

unfoldable pub make_body : String → String → SipCredentials → String → MakeCallRequest
make_body destination_uri sdp_offer credentials client_ref = record {
  destination_uri = destination_uri;
  sdp_offer = sdp_offer;
  sip_username = credentials.username;
  sip_password = credentials.password;
  sip_domain = credentials.domain;
  sip_registrar = credentials.registrar;
  sip_transport = credentials.transport;
  sip_port = credentials.port;
  sip_auth_username = credentials.auth_username;
  sip_display_name = credentials.display_name;
  client_ref = client_ref;
}

-- What the client can ask of a gateway, with the arguments of its functions.
pub data Operation : Type 0 where
  register_device : DeviceRegistration → Operation
  device_heartbeat unregister_device get_call_offer : String → Operation
  accept_call : String → String → Operation
  reject_call : String → Operation
  make_call : String → String → SipCredentials → String → Operation
  cancel_call get_call_status hangup_call : String → Operation
  transfer_call transfer_attended : String → String → Operation

unfoldable pub request_of : String → Operation → Request
unfolding register_body make_body
request_of token (Operation.register_device registration) =
    default_request Method.post "/v1/devices" token (Body.register (register_body registration))
request_of token (Operation.device_heartbeat device_id) =
    default_request Method.post (device_path device_id "/heartbeat") token Body.empty
request_of token (Operation.unregister_device device_id) =
    default_request Method.delete (device_path device_id "") token Body.empty
request_of token (Operation.get_call_offer call_token) =
    default_request Method.get (call_path call_token "") token Body.empty
request_of token (Operation.accept_call call_token sdp_answer) =
    default_request Method.post (call_path call_token "/accept") token
      (Body.accept (record { sdp_answer = sdp_answer }))
request_of token (Operation.reject_call call_token) =
    default_request Method.post (call_path call_token "/reject") token Body.empty
request_of token (Operation.make_call destination_uri sdp_offer credentials client_ref) =
    let body = Body.make (make_body destination_uri sdp_offer credentials client_ref) in
    record (default_request Method.post "/v1/calls" token body) { timeout = make_call_timeout }
request_of token (Operation.cancel_call client_ref) =
    default_request Method.post "/v1/calls/cancel" token
      (Body.cancel (record { client_ref = client_ref }))
request_of token (Operation.get_call_status call_token) =
    default_request Method.get (call_path call_token "/status") token Body.empty
request_of token (Operation.hangup_call call_token) =
    record (default_request Method.post (call_path call_token "/hangup") token Body.empty) {
      timeout = hangup_timeout;
    }
request_of token (Operation.transfer_call call_token target) =
    default_request Method.post (call_path call_token "/transfer") token
      (Body.transfer (record { target = target }))
request_of token (Operation.transfer_attended call_token replaces) =
    default_request Method.post (call_path call_token "/transfer") token
      (Body.attended (record { replaces = replaces }))
