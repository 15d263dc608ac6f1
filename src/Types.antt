-- ===== src/Types.antt =====
-- src/types.rs: the types that the parts of the core share. The strings are native strings, the
-- unsigned numbers native numbers. The records of the on-device AI are in `Types.Insights`.
pub mod Reasons
pub mod Insights
use aria_mobile_core.Base.{
  ℕ, Bool, String, Option, if◌then◌else◌, ◌||◌, some, none, str_eq, ◌≡◌, refl, ◌⊎◌, inl, inr,
}

pub record GatewayConfig : Type 0 where
  pub base_url : String
  pub api_key : String

pub record SipCredentials : Type 0 where
  pub username : String
  pub password : String
  pub domain : String
  pub registrar : Option String
  pub transport : String
  pub port : ℕ
  pub auth_username : Option String
  pub display_name : String

pub record DeviceRegistration : Type 0 where
  pub platform : String
  pub push_token : String
  pub bundle_id : Option String
  pub sip : SipCredentials

pub record DeviceRegistrationResponse : Type 0 where
  pub device_id : String
  pub auth_token : String

pub record CallOffer : Type 0 where
  pub call_token : String
  pub caller_uri : String
  pub caller_name : Option String
  pub sdp_offer : String

pub data CallState : Type 0 where
  idle incoming ringing connecting connected held ended : CallState

pub data CallDirection : Type 0 where
  inbound outbound : CallDirection

pub data EndReason : Type 0 where
  local_hangup remote_hangup caller_cancelled answered_elsewhere rejected : EndReason
  transferred failed cancelled : EndReason

abbrev pub is_ended : CallState → Bool
is_ended CallState.ended = Bool.true
is_ended _ = Bool.false

abbrev pub is_transferred : EndReason → Bool
is_transferred EndReason.transferred = Bool.true
is_transferred _ = Bool.false

-- `EndReason::from_gateway`, on the text of a reason that is present.
reason_of_text : String → EndReason → EndReason
reason_of_text r fallback =
    if str_eq r "transferred"
    then EndReason.transferred
    else if str_eq r "bye_from_remote" || str_eq r "bye"
    then EndReason.remote_hangup
    else if str_eq r "cancelled"
    then EndReason.caller_cancelled
    else if str_eq r "rejected" || str_eq r "declined"
    then EndReason.rejected
    else if str_eq r "answered_elsewhere"
    then EndReason.answered_elsewhere
    else if str_eq r "no_ack"
    then EndReason.failed
    else fallback

unfoldable pub from_gateway : Option String → EndReason → EndReason
unfolding reason_of_text
from_gateway none fallback = fallback
from_gateway (some r) fallback = reason_of_text r fallback

pub record CallInfo : Type 0 where
  pub call_id : String
  pub remote_uri : String
  pub remote_name : Option String
  pub state : CallState
  pub direction : CallDirection
  pub muted : Bool
  pub on_hold : Bool
  pub duration_secs : ℕ
  pub end_reason : Option EndReason

pub data AudioCodec : Type 0 where
  pcmu pcma opus g729 : AudioCodec

abbrev pub payload_type : AudioCodec → ℕ
payload_type AudioCodec.pcmu = 0
payload_type AudioCodec.pcma = 8
payload_type AudioCodec.opus = 111
payload_type AudioCodec.g729 = 18

abbrev pub codec_name : AudioCodec → String
codec_name AudioCodec.pcmu = "PCMU"
codec_name AudioCodec.pcma = "PCMA"
codec_name AudioCodec.opus = "opus"
codec_name AudioCodec.g729 = "G729"

abbrev pub clock_rate : AudioCodec → ℕ
clock_rate AudioCodec.opus = 48000
clock_rate _ = 8000

pub record PushCallPayload : Type 0 where
  pub call_token : String
  pub caller_uri : String
  pub caller_name : Option String
  pub gateway_url : String

pub record CallStatusResponse : Type 0 where
  pub status : String
  pub reason : Option String
  pub transfer : Option String
  pub transfer_code : Option ℕ

pub data MobileError : Type 0 where
  network_error authentication_error registration_failed : MobileError
  call_failed : String → MobileError
  media_error invalid_state gateway_error timeout invalid_target : MobileError
  cancelled_error transfer_unsupported : MobileError

-- `From<reqwest::Error>`: the argument is `is_timeout()` of the HTTP client's error.
abbrev pub from_http_error : Bool → MobileError
from_http_error is_timeout = if is_timeout then MobileError.timeout else MobileError.network_error

pub data Result {ℓ} (A : Type ℓ) : Type ℓ where
  ok : A → Result A
  err : MobileError → Result A

-- To split on a computed result and keep the equation.
pub Result-cases {ℓ} :
    {A : Type ℓ} (r : Result A) → ((x : MobileError) × (r ≡ err x)) ⊎ ((a : A) × (r ≡ ok a))
Result-cases (ok a) = inr (a, refl)
Result-cases (err x) = inl (x, refl)
