-- ===== src/Gateway/Status/Mapping.antt =====
-- About src/gateway_client.rs: what the requests make of an answer of 401.
use aria_mobile_core.Base.{◌≡◌, String}
use aria_mobile_core.Types.{MobileError, ok, err}
use aria_mobile_core.Gateway.Routes.{Route}
use aria_mobile_core.Gateway.Send.{Response, response}
use aria_mobile_core.Gateway.Status.{
  HttpLib, register_device, device_heartbeat, unregister_device, get_call_offer, accept_call,
  reject_call, make_call_response, cancel_call, get_call_status, hangup_call, transfer_call,
  transfer_attended,
}

-- Whatever was asked, an answer of 401 is an authentication error, and nothing else is read of it.
pub unauthorized :
    (h : HttpLib) (resp : Response) (route : Route) (token : String)
    → resp.status ≡ 401
    → (register_device h token (ok (resp, route)) ≡ err MobileError.authentication_error)
      × (device_heartbeat (ok (resp, route)) ≡ err MobileError.authentication_error)
      × (unregister_device (ok (resp, route)) ≡ err MobileError.authentication_error)
      × (get_call_offer h (ok (resp, route)) ≡ err MobileError.authentication_error)
      × (accept_call h (response resp) ≡ err MobileError.authentication_error)
      × (reject_call h (response resp) ≡ err MobileError.authentication_error)
      × (make_call_response h resp route ≡ err MobileError.authentication_error)
      × (cancel_call (response resp) ≡ err MobileError.authentication_error)
      × (get_call_status h (response resp) ≡ err MobileError.authentication_error)
      × (hangup_call h (response resp) ≡ err MobileError.authentication_error)
      × (transfer_call (response resp) ≡ err MobileError.authentication_error)
      × (transfer_attended h (response resp) ≡ err MobileError.authentication_error)
unfolding register_device device_heartbeat unregister_device get_call_offer accept_call reject_call
    make_call_response cancel_call get_call_status hangup_call transfer_call transfer_attended
unauthorized h resp route token e =
    (rw e, rw e, rw e, rw e, rw e, rw e, rw e, rw e, rw e, rw e, rw e, rw e)
