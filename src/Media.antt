-- ===== src/Media.antt =====
-- src/media.rs: what the engine does with a call's media session. The two RTP loops, with the counters
-- that they keep, are in `Media.Receive` and `Media.Transmit`.
pub mod Srtp
pub mod Sdp
pub mod Receive
pub mod Transmit
pub mod Dtmf
pub mod Create
use aria_mobile_core.Base.{
  ℕ, Bool, true, false, not, String, Option, none, some, is_some, if◌then◌else◌,
}
use aria_mobile_core.Types.{AudioCodec, MobileError, Result, ok, err}

pub record SocketAddr : Type 0 where
  pub ip : String
  pub port : ℕ

-- `srtp_out` and `srtp_in` are the keys of the SRTP contexts; `ai_tap` is the AI session that is fed.
-- The fields of the RTP socket, the packet counters and the audio levels have no part here.
pub record MobileMediaSession : Type 0 where
  pub remote_addr : SocketAddr
  pub local_port : ℕ
  pub codec : AudioCodec
  pub muted : Bool
  pub on_hold : Bool
  pub running : Bool
  pub ssrc : ℕ
  pub srtp_out : Option String
  pub srtp_in : Option String
  pub offered_srtp_key : Option String
  pub ai_tap : Option ℕ

-- The port and the SSRC are the operating system's and the random generator's.
unfoldable pub new_session : SocketAddr → AudioCodec → ℕ → ℕ → MobileMediaSession
new_session remote codec port ssrc = record {
  remote_addr = remote;
  local_port = port;
  codec = codec;
  muted = false;
  on_hold = false;
  running = true;
  ssrc = ssrc;
  srtp_out = none;
  srtp_in = none;
  offered_srtp_key = none;
  ai_tap = none;
}

unfoldable pub update_remote : MobileMediaSession → SocketAddr → MobileMediaSession
update_remote m addr = record m { remote_addr = addr }

unfoldable pub stop : MobileMediaSession → MobileMediaSession
stop m = record m { running = false }

unfoldable pub set_mute : MobileMediaSession → Bool → MobileMediaSession
set_mute m muted = record m { muted = muted }

unfoldable pub set_hold : MobileMediaSession → Bool → MobileMediaSession
set_hold m on_hold = record m { on_hold = on_hold }

-- What rtp-engine does with the keys in SDP: `parse_sdp_crypto` finds a peer's key, `accepts` says
-- whether `SrtpContext::from_base64` takes one. `parse_addr` is the standard library's parser of a
-- `SocketAddr`.
pub record MediaLib : Type 0 where
  pub parse_sdp_crypto : String → Option String
  pub accepts : String → Bool
  pub parse_addr : String → Option SocketAddr

unfoldable pub set_ai_tap : MobileMediaSession → Option ℕ → MobileMediaSession
set_ai_tap m tap = record m { ai_tap = tap }

unfoldable pub set_offered_srtp_key : MobileMediaSession → Option String → MobileMediaSession
set_offered_srtp_key m key = record m { offered_srtp_key = key }

-- Both keys are looked at before either is put in place.
unfoldable pub set_srtp_keys :
    MediaLib → MobileMediaSession → String → String → MobileMediaSession × Result (Unit {0})
set_srtp_keys lib m local_key remote_key =
    if not (lib.accepts local_key)
    then (m, err MobileError.media_error)
    else if not (lib.accepts remote_key)
    then (m, err MobileError.media_error)
    else (record m { srtp_out = some local_key; srtp_in = some remote_key }, ok tt)

abbrev pub with_keys :
    MediaLib
    → MobileMediaSession
    → Option String
    → Option String
    → MobileMediaSession × Result (Unit {0})
with_keys lib m none offered = (m, ok tt)
with_keys lib m (some remote_key) none = (m, ok tt)
with_keys lib m (some remote_key) (some local_key) = set_srtp_keys lib m local_key remote_key

unfoldable pub apply_remote_sdp :
    MediaLib → MobileMediaSession → String → MobileMediaSession × Result (Unit {0})
apply_remote_sdp lib m remote_sdp =
    with_keys lib m (lib.parse_sdp_crypto remote_sdp) m.offered_srtp_key

abbrev pub srtp_active : MobileMediaSession → Bool
srtp_active m = is_some m.srtp_out

-- The capture that a call's session feeds, if it has a session and that feeds one.
abbrev pub tap_of : Option MobileMediaSession → Option ℕ
tap_of none = none
tap_of (some m) = m.ai_tap
