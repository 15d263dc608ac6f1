-- ===== src/Gateway/Status.antt =====
-- What the gateway's answers mean, request by request. The routes of a request that fails over are in
-- `Gateway.Send`; here `sent` is how the request ended.
pub mod Mapping
use aria_mobile_core.Base.{
  ℕ, leb, ltb, ◌==◌, if◌then◌else◌, Bool, true, false, ◌&&◌, ◌||◌, String, str_eq, concat, Option,
  none, some, List, [], ◌∷◌,
}
use aria_mobile_core.Types.{
  CallOffer, CallStatusResponse, DeviceRegistrationResponse, MobileError, Result, ok, err,
  from_http_error,
}
use aria_mobile_core.Gateway.Routes.{Route}
use aria_mobile_core.Gateway.Send.{
  Sent, Response, response, not_connected, broken, read_json_capped, send_on,
}

-- The HTTP library's text of a status, and serde_json on the bodies that are read.
pub record HttpLib : Type 0 where
  pub show_status : ℕ → String
  pub decode_device : List ℕ → Option String
  pub decode_offer : List ℕ → Option CallOffer
  pub decode_made : List ℕ → Option (String × String)
  pub decode_status : List ℕ → Option CallStatusResponse
  pub decode_error : List ℕ → Option String

abbrev pub is_success : ℕ → Bool
is_success status = leb 200 status && ltb status 300

unfoldable pub status_error : ℕ → MobileError → MobileError
status_error status otherwise =
    if status == 401 then MobileError.authentication_error else otherwise

abbrev pub refused : HttpLib → String → Response → MobileError
refused h what resp =
    MobileError.call_failed
      (concat what (concat " (HTTP " (concat (h.show_status resp.status) ")")))

-- `send().await?` on one route.
abbrev pub on_response {ℓ} : {A : Type ℓ} → Sent Response → (Response → Result A) → Result A
on_response (response resp) f = f resp
on_response (not_connected t) f = err (from_http_error t)
on_response (broken t) f = err (from_http_error t)

abbrev pub unless_success {ℓ} : {A : Type ℓ} → Response → MobileError → Result A → Result A
unless_success resp x a = if is_success resp.status then a else err (status_error resp.status x)

-- `?` behind `send`, which says on which route the response came.
abbrev pub on_sent {ℓ} :
    {A : Type ℓ} → Result (Response × Route) → (Response → Route → Result A) → Result A
on_sent (err x) f = err x
on_sent (ok (resp, route)) f = f resp route

unfoldable pub register_device :
    HttpLib → String → Result (Response × Route) → Result DeviceRegistrationResponse
unfolding status_error read_json_capped
register_device h token sent = on_sent sent λ resp route.
    unless_success resp MobileError.registration_failed
      (elim (read_json_capped h.decode_device resp) [
        | err x ↦ err x
        | ok device_id ↦ ok (record { device_id = device_id; auth_token = token })
      ])

unfoldable pub device_heartbeat : Result (Response × Route) → Result (Unit {0})
unfolding status_error
device_heartbeat sent =
    on_sent sent λ resp route. unless_success resp MobileError.network_error (ok tt)

unfoldable pub unregister_device : Result (Response × Route) → Result (Unit {0})
unfolding status_error
unregister_device sent =
    on_sent sent λ resp route. unless_success resp MobileError.gateway_error (ok tt)

unfoldable pub get_call_offer : HttpLib → Result (Response × Route) → Result (CallOffer × Route)
unfolding status_error read_json_capped
get_call_offer h sent = on_sent sent λ resp route.
    unless_success resp (refused h "no call offer" resp)
      (elim (read_json_capped h.decode_offer resp) [ err x ↦ err x | ok offer ↦ ok (offer, route) ])

unfoldable pub accept_call : HttpLib → Sent Response → Result (Unit {0})
unfolding status_error
accept_call h sent =
    on_response sent λ resp. unless_success resp (refused h "accept refused" resp) (ok tt)

unfoldable pub reject_call : HttpLib → Sent Response → Result (Unit {0})
unfolding status_error
reject_call h sent =
    on_response sent λ resp. unless_success resp (refused h "reject refused" resp) (ok tt)

abbrev is_text {ℓ} : {A : Type ℓ} → Result String → String → A → A → A
is_text (err x) t a b = b
is_text (ok s) t a b = if str_eq s t then a else b

unfoldable pub make_call_response : HttpLib → Response → Route → Result (String × String × Route)
unfolding status_error read_json_capped
make_call_response h resp route =
    if resp.status == 409
    then err (
        is_text (read_json_capped h.decode_error resp) "cancelled" MobileError.cancelled_error
          MobileError.gateway_error)
    else unless_success resp (refused h "the call did not connect" resp)
        (elim (read_json_capped h.decode_made resp) [
          | err x ↦ err x
          | ok (call_token, sdp_answer) ↦ ok (call_token, sdp_answer, route)
        ])

-- The writes of `attempt`, one before each request that is sent.
abbrev pub write_attempt : Option Route → List Route → Option Route
write_attempt attempt [] = attempt
write_attempt attempt (route ∷ sent) = write_attempt (some route) sent

-- A pinned call goes to its route only. The second part is where the request was sent, in order, the
-- third is `attempt` after that.
unfoldable pub make_call :
    HttpLib
    → List Route
    → Option Route
    → Option Route
    → (Route → Sent Response)
    → Result (String × String × Route) × List Route × Option Route
unfolding make_call_response send_on
make_call h routes pin attempt outcome =
    let targets : List Route = elim pin [ some route ↦ route ∷ [] | none ↦ routes ] in
    let sent = send_on targets outcome in
    (on_sent sent.0 (make_call_response h), sent.1, write_attempt attempt sent.1)

unfoldable pub cancel_call : Sent Response → Result Bool
unfolding status_error
cancel_call sent = on_response sent λ resp.
    if is_success resp.status
    then ok true
    else if resp.status == 404
    then ok false
    else err (status_error resp.status MobileError.gateway_error)

unfoldable pub get_call_status : HttpLib → Sent Response → Result CallStatusResponse
unfolding status_error read_json_capped
get_call_status h sent = on_response sent λ resp.
    unless_success resp (refused h "no call status" resp) (read_json_capped h.decode_status resp)

unfoldable pub hangup_call : HttpLib → Sent Response → Result (Unit {0})
unfolding status_error
hangup_call h sent = on_response sent λ resp.
    if is_success resp.status
    then ok tt
    else if resp.status == 404
    then err MobileError.invalid_state
    else err (status_error resp.status (refused h "hangup refused" resp))

abbrev transfer_error : ℕ → MobileError
transfer_error status =
    if status == 400
    then MobileError.invalid_target
    else if status == 401 || status == 403
    then MobileError.authentication_error
    else if status == 404
    then MobileError.invalid_state
    else if status == 502
    then MobileError.call_failed "the PBX refused the transfer"
    else if status == 504
    then MobileError.timeout
    else MobileError.gateway_error

unfoldable pub transfer_call : Sent Response → Result (Unit {0})
transfer_call sent =
    on_response sent
      λ resp. if is_success resp.status then ok tt else err (transfer_error resp.status)

abbrev conflict_error : HttpLib → Response → MobileError
conflict_error h resp =
    let body = read_json_capped h.decode_error resp in
    is_text body "call_not_established" MobileError.invalid_state
      (is_text body "unsupported_by_pbx" MobileError.transfer_unsupported MobileError.gateway_error)

abbrev attended_error : HttpLib → Response → MobileError
attended_error h resp =
    let s = resp.status in
    if s == 400 || s == 404
    then MobileError.invalid_state
    else if s == 401 || s == 403
    then MobileError.authentication_error
    else if s == 409
    then conflict_error h resp
    else if s == 502
    then MobileError.call_failed "the PBX refused the transfer"
    else if s == 504
    then MobileError.timeout
    else MobileError.gateway_error

unfoldable pub transfer_attended : HttpLib → Sent Response → Result (Unit {0})
unfolding read_json_capped
transfer_attended h sent =
    on_response sent λ resp. if is_success resp.status then ok tt else err (attended_error h resp)
