-- ===== src/Media/Create.antt =====
-- src/media.rs, opening a session: `MobileMediaSession::new`, `create_answer_session` and
-- `create_offer_session`, with the discovery of the address to advertise.
pub mod Offered
use aria_mobile_core.Base.{
  ℕ, if◌then◌else◌, Bool, or_else, String, Option, none, some, List, [], ◌∷◌,
}
use aria_mobile_core.Types.{AudioCodec, opus, pcmu, pcma, MobileError, Result, ok, err}
use aria_mobile_core.Media.{SocketAddr, MobileMediaSession, new_session, set_offered_srtp_key}
use aria_mobile_core.Media.Sdp.{parse_sdp_remote}
use aria_mobile_core.Media.Sdp.Build.{build_sdp_offer, build_sdp_answer, negotiate_codec}

-- What the host gives, each at most once for a session: the port that the socket is bound to and the
-- random SSRC; what STUN says on the RTP socket and on one of its own, and whether it does within
-- `STUN_BUDGET`; the address of the interface; and rtp-engine's new SRTP key.
pub record Host : Type 0 where
  pub bound_port : Option ℕ
  pub ssrc : ℕ
  pub stun_public : Option String
  pub stun_discover : Option String
  pub in_budget : Bool
  pub interface_ip : Option String
  pub generated_key : Option String

abbrev pub open_session : Host → SocketAddr → AudioCodec → Result MobileMediaSession
open_session host remote_addr codec = elim host.bound_port [
  | none ↦ err MobileError.media_error
  | some port ↦ ok (new_session remote_addr codec port host.ssrc)
]

abbrev pub stun_on : Host → Option String
stun_on host = or_else host.stun_public host.stun_discover

abbrev pub local_interface_ip : Host → String
local_interface_ip host = elim host.interface_ip [ none ↦ "0.0.0.0" | some ip ↦ ip ]

abbrev pub advertised_ip : Host → String
advertised_ip host =
    if host.in_budget
    then (elim (stun_on host) [ some ip ↦ ip | none ↦ local_interface_ip host ])
    else local_interface_ip host

unfoldable pub create_answer_session :
    (String → Option SocketAddr)
    → Host
    → String
    → List AudioCodec
    → Result (MobileMediaSession × String)
create_answer_session parse_addr host offer_sdp preferred_codecs =
    elim (parse_sdp_remote parse_addr offer_sdp) [
      | none ↦ err MobileError.media_error
      | some (remote_addr, _) ↦
          let chosen = negotiate_codec offer_sdp preferred_codecs in
          elim (open_session host remote_addr chosen) [
            | err x ↦ err x
            | ok session ↦
                ok (session, build_sdp_answer session.local_port (advertised_ip host) chosen)
          ]
    ]

abbrev pub first_codec : List AudioCodec → AudioCodec
first_codec [] = pcmu
first_codec (c ∷ cs) = c

abbrev pub offered_codecs : List AudioCodec → List AudioCodec
offered_codecs [] = pcmu ∷ pcma ∷ opus ∷ []
offered_codecs (c ∷ cs) = c ∷ cs

abbrev pub placeholder : SocketAddr
placeholder = record { ip = "0.0.0.0"; port = 0 }

unfoldable pub create_offer_session :
    (String → String) → Host → List AudioCodec → Result (MobileMediaSession × String)
create_offer_session crypto_line host preferred_codecs =
    elim (open_session host placeholder (first_codec preferred_codecs)) [
      | err x ↦ err x
      | ok session ↦ ok (
        set_offered_srtp_key session host.generated_key,
        build_sdp_offer crypto_line session.local_port (advertised_ip host)
            (offered_codecs preferred_codecs) host.generated_key,
      )
    ]
