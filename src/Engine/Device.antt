-- ===== src/Engine/Device.antt =====
-- src/lib.rs, the device's registration, and the heartbeats after a network change.
pub mod Heartbeats
use aria_mobile_core.Base.{
  ℕ, if◌then◌else◌, Bool, true, false, not, String, Option, none, some, List, [], ◌∷◌, ◌++◌,
}
use aria_mobile_core.Types.{
  DeviceRegistration, DeviceRegistrationResponse, MobileError, Result, ok, err,
}
use aria_mobile_core.Events.{Event}
use aria_mobile_core.Auth
use aria_mobile_core.Engine.State.{Await, Engine, Task, send_on, spawn}
use aria_mobile_core.Engine.Calls.{report_auth_rejected}

-- `resolved` is what `resolve_gateway` did meanwhile, whose own result is ignored.
unfoldable pub register_device :
    Engine
    → DeviceRegistration
    → (Engine → Engine)
    → Await (Result DeviceRegistrationResponse)
    → Engine × Result DeviceRegistrationResponse
register_device e registration resolved reply = elim (Auth.token e.auth) [
  | err x ↦ (e, err x)
  | ok token ↦
      let e1 = reply.meanwhile (resolved e) in
      elim reply.answer [
        | err x ↦ (e1, err x)
        | ok resp ↦ (
          send_on
              (record e1 { last_registration = some registration; device_id = some resp.device_id })
              (Event.registration resp.device_id "registered" none),
          ok resp,
        )
      ]
]

unfoldable pub unregister_device :
    Engine → String → Await (Result (Unit {0})) → Engine × Result (Unit {0})
unregister_device e device_id reply = elim (Auth.token e.auth) [
  | err x ↦ (e, err x)
  | ok token ↦ elim reply.answer [
    | err x ↦ (reply.meanwhile e, err x)
    | ok _ ↦ (
      send_on (record (reply.meanwhile e) { device_id = none })
          (Event.registration device_id "unregistered" none),
      ok tt,
    )
  ]
]

abbrev forget {ℓ} : {A : Type ℓ} → Result A → Result (Unit {0})
forget (ok a) = ok tt
forget (err x) = err x

unfoldable pub update_push_token :
    Engine
    → String
    → (Engine → Engine)
    → Await (Result DeviceRegistrationResponse)
    → Engine × Result (Unit {0})
unfolding register_device
update_push_token e new_token resolved reply = elim e.last_registration [
  | none ↦ (e, err MobileError.invalid_state)
  | some last ↦
      let (e', result) =
        register_device e (record last { push_token = new_token }) resolved reply in
      (e', forget result)
]

unfoldable pub notify_network_change : Engine → Engine
notify_network_change e =
    if e.heartbeat.running
    then record e { heartbeat = record (e.heartbeat) { requested = true } }
    else spawn (record e { heartbeat = record { running = true; requested = true } })
        Task.heartbeats

-- One round of the task of `spawn_heartbeats`, and whether the task goes on; the third part is the
-- device that a heartbeat was sent for.
unfoldable pub heartbeat_round : Engine → Await (Result (Unit {0})) → Engine × Bool × Option String
heartbeat_round e reply =
    if not e.heartbeat.requested
    then (record e { heartbeat = record (e.heartbeat) { running = false } }, false, none)
    else let e1 : Engine = record e { heartbeat = record (e.heartbeat) { requested = false } } in
      let generation = (Auth.snapshot e1.auth).1 in
      elim e1.device_id [
        | none ↦ (e1, true, none)
        | some did ↦ elim reply.answer [
          | err MobileError.authentication_error ↦
              (report_auth_rejected (reply.meanwhile e1) generation, true, some did)
          | _ ↦ (reply.meanwhile e1, true, some did)
        ]
      ]
