-- ===== src/Gateway/Requests/Read.antt =====
-- About src/gateway_client.rs: a request tells which operation it is for.
use Prim.Native.Char.{Char, code}
use text.Mathlib.TextLemmas.{cons-append, nil-append}
use aria_mobile_core.Base.{
  ◌≡◌, refl, sym, ap, ◌∙◌, ◌==◌, false, if◌then◌else◌, String, str_eq, concat, Option, none, some,
  List, [], ◌∷◌, ◌++◌,
}
use mathlib.Core.Option.{some-injective}
use aria_mobile_core.Types.{DeviceRegistration, SipCredentials}
use aria_mobile_core.Gateway.Requests.{
  RegisterDeviceRequest, MakeCallRequest, Body, Method, Request, Operation, call_path, device_path,
  register_body, make_body, request_of,
}

abbrev pub NoSlash : String → Type 0
NoSlash String.[] = Unit
NoSlash (String.◌∷◌ c s) = (code c == b'/' ≡ false) × NoSlash s

chars : String → List Char
chars String.[] = []
chars (String.◌∷◌ c s) = c ∷ chars s

chars-concat : (s t : String) → chars (concat s t) ≡ chars s ++ chars t
unfolding chars
chars-concat String.[] t = ap chars (nil-append t)
chars-concat (String.◌∷◌ c s) t = rw (cons-append c s t, chars, chars-concat s t) refl

abbrev push : Char → List String → List String
push c [] = []
push c (x ∷ xs) = String.◌∷◌ c x ∷ xs

-- A path at its slashes.
segments : List Char → List String
segments [] = "" ∷ []
segments (c ∷ s) = let rest = segments s in if code c == b'/' then "" ∷ rest else push c rest

segments-last : (t : String) → NoSlash t → segments (chars t ++ []) ≡ t ∷ []
unfolding segments chars
segments-last String.[] h = refl
segments-last (String.◌∷◌ c t) h = rw (h.0, segments-last t h.1) refl

segments-append :
    (t : String) (rest : List Char)
    → NoSlash t
    → segments (chars t ++ (chars "/" ++ rest)) ≡ t ∷ segments rest
unfolding segments chars
segments-append String.[] rest h = refl
segments-append (String.◌∷◌ c t) rest h = rw (h.0, segments-append t rest h.1) refl

-- The parts of a path below its version: the kind, the id if there is one, and the verb if there is
-- one.
abbrev below : List String → List String
below (root ∷ version ∷ parts) = parts
below _ = []

parts : String → List String
parts path = below (segments (chars path))

module _ (id : String) (plain : NoSlash id) where
  parts-call : parts (call_path id "") ≡ "calls" ∷ id ∷ []
  unfolding parts segments chars
  parts-call =
      rw (chars-concat "/v1/calls/" (concat id ""), chars-concat id "", segments-last id plain) refl

  parts-call_verb :
      (verb : String)
      → parts (call_path id (concat "/" verb)) ≡ "calls" ∷ id ∷ segments (chars verb)
  unfolding parts segments chars
  parts-call_verb verb =
      rw
        (
          chars-concat "/v1/calls/" (concat id (concat "/" verb)),
          chars-concat id (concat "/" verb),
          chars-concat "/" verb,
          segments-append id (chars verb) plain,
        )
        refl

  parts-device : parts (device_path id "") ≡ "devices" ∷ id ∷ []
  unfolding parts segments chars
  parts-device =
      rw (chars-concat "/v1/devices/" (concat id ""), chars-concat id "", segments-last id plain)
        refl

  parts-heartbeat : parts (device_path id "/heartbeat") ≡ "devices" ∷ id ∷ "heartbeat" ∷ []
  unfolding parts segments chars
  parts-heartbeat =
      rw
        (
          chars-concat "/v1/devices/" (concat id "/heartbeat"),
          chars-concat id "/heartbeat",
          segments-append id (chars "heartbeat") plain,
        )
        refl

registration_in : RegisterDeviceRequest → DeviceRegistration
registration_in r = record {
  platform = r.platform;
  push_token = r.push_token;
  bundle_id = r.bundle_id;
  sip = record {
    username = r.sip_username;
    password = r.sip_password;
    domain = r.sip_domain;
    registrar = r.sip_registrar;
    transport = r.sip_transport;
    port = r.sip_port;
    auth_username = r.sip_auth_username;
    display_name = r.sip_display_name;
  };
}

credentials_in : MakeCallRequest → SipCredentials
credentials_in r = record {
  username = r.sip_username;
  password = r.sip_password;
  domain = r.sip_domain;
  registrar = r.sip_registrar;
  transport = r.sip_transport;
  port = r.sip_port;
  auth_username = r.sip_auth_username;
  display_name = r.sip_display_name;
}

-- The operation, from the method, the parts of the path and the body.
read_parts : Method → List String → Body → Option Operation
read_parts Method.post (kind ∷ []) (Body.register r) =
    some (Operation.register_device (registration_in r))
read_parts Method.post (kind ∷ []) (Body.make r) =
    some (Operation.make_call r.destination_uri r.sdp_offer (credentials_in r) r.client_ref)
read_parts Method.post (kind ∷ id ∷ []) (Body.cancel r) = some (Operation.cancel_call r.client_ref)
read_parts Method.post (kind ∷ id ∷ verb ∷ []) (Body.accept r) =
    some (Operation.accept_call id r.sdp_answer)
read_parts Method.post (kind ∷ id ∷ verb ∷ []) (Body.transfer r) =
    some (Operation.transfer_call id r.target)
read_parts Method.post (kind ∷ id ∷ verb ∷ []) (Body.attended r) =
    some (Operation.transfer_attended id r.replaces)
read_parts Method.post (kind ∷ id ∷ verb ∷ []) Body.empty = some (
    if str_eq kind "devices"
    then Operation.device_heartbeat id
    else if str_eq verb "reject"
    then Operation.reject_call id
    else Operation.hangup_call id)
read_parts Method.get (kind ∷ id ∷ []) Body.empty = some (Operation.get_call_offer id)
read_parts Method.get (kind ∷ id ∷ verb ∷ []) Body.empty = some (Operation.get_call_status id)
read_parts Method.delete (kind ∷ id ∷ []) Body.empty = some (Operation.unregister_device id)
read_parts _ _ _ = none

read : Request → Option Operation
read r = read_parts r.method (parts r.path) r.body

-- The id in the path of a request has no slash.
abbrev pub IsPlain : Operation → Type 0
IsPlain (Operation.device_heartbeat id) = NoSlash id
IsPlain (Operation.unregister_device id) = NoSlash id
IsPlain (Operation.get_call_offer id) = NoSlash id
IsPlain (Operation.accept_call id sdp) = NoSlash id
IsPlain (Operation.reject_call id) = NoSlash id
IsPlain (Operation.get_call_status id) = NoSlash id
IsPlain (Operation.hangup_call id) = NoSlash id
IsPlain (Operation.transfer_call id target) = NoSlash id
IsPlain (Operation.transfer_attended id replaces) = NoSlash id
IsPlain _ = Unit

read-request_of :
    (token : String) (op : Operation) → IsPlain op → read (request_of token op) ≡ some op
unfolding read read_parts request_of register_body make_body registration_in credentials_in parts
    segments chars
read-request_of token (Operation.register_device registration) h = refl
read-request_of token (Operation.device_heartbeat id) h = rw (parts-heartbeat id h) refl
read-request_of token (Operation.unregister_device id) h = rw (parts-device id h) refl
read-request_of token (Operation.get_call_offer id) h = rw (parts-call id h) refl
read-request_of token (Operation.accept_call id sdp) h = rw (parts-call_verb id h "accept") refl
read-request_of token (Operation.reject_call id) h = rw (parts-call_verb id h "reject") refl
read-request_of token (Operation.make_call uri sdp credentials ref) h = refl
read-request_of token (Operation.cancel_call ref) h = refl
read-request_of token (Operation.get_call_status id) h = rw (parts-call_verb id h "status") refl
read-request_of token (Operation.hangup_call id) h = rw (parts-call_verb id h "hangup") refl
read-request_of token (Operation.transfer_call id target) h =
    rw (parts-call_verb id h "transfer") refl
read-request_of token (Operation.transfer_attended id replaces) h =
    rw (parts-call_verb id h "transfer") refl

bearer-request_of : (token : String) (op : Operation) → (request_of token op).bearer ≡ token
unfolding request_of
bearer-request_of token (Operation.register_device registration) = refl
bearer-request_of token _ = refl

-- Two requests that are equal, in method, path, bearer token, body and timeout, are for the same
-- operation with the same arguments and the same token, provided that no id in a path has a slash.
pub request_of-injective :
    (a b : String) (op op' : Operation)
    → IsPlain op
    → IsPlain op'
    → request_of a op ≡ request_of b op'
    → (a ≡ b) × (op ≡ op')
request_of-injective a b op op' p q e = (
  sym (bearer-request_of a op) ∙ (ap (λ (r : Request). r.bearer) e ∙ bearer-request_of b op'),
  some-injective op op' (sym (read-request_of a op p) ∙ (ap read e ∙ read-request_of b op' q)),
)
