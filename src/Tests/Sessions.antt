-- ===== src/Tests/Sessions.antt =====
-- The theorems on sessions and their SDP, at concrete inputs.
use aria_mobile_core.Base.{
  ◌≡◌, ◌↔◌, ◌⊎◌, refl, true, false, String, str_eq, if◌then◌else◌, decimal, Option, none, some, [],
  ◌∷◌, arith,
}
use aria_mobile_core.Types.{opus, pcmu, MobileError, ok, err}
use aria_mobile_core.Media.{SocketAddr}
use aria_mobile_core.Media.Sdp.{parse_sdp_remote}
use aria_mobile_core.Media.Sdp.Build.{build_sdp_offer, build_sdp_answer, negotiate_codec}
use aria_mobile_core.Media.Sdp.Negotiate.{first_common}
use aria_mobile_core.Media.Sdp.Agreement.{build_sdp_answer-first_common}
use aria_mobile_core.Media.Create.{Host, create_answer_session}
use aria_mobile_core.Media.Create.Offered.{create_answer_session-err}
use aria_mobile_core.Engine.Dial.{Select, MakeCallAnswer}
use aria_mobile_core.Tests.Data.{route_a}

abbrev here : SocketAddr
here = record { ip = "10.0.0.1"; port = 4000 }

abbrev read_addr : String → Option SocketAddr
read_addr s = if str_eq s "10.0.0.1:4000" then some here else none

abbrev crypto : String → String
crypto key = "a=crypto:1 AES_CM_128_HMAC_SHA1_80 inline:a2V5"

abbrev host : Host
host = record {
  bound_port = some 4000;
  ssrc = 7;
  stun_public = none;
  stun_discover = some "10.0.0.1";
  in_budget = true;
  interface_ip = none;
  generated_key = some "a2V5";
}

build_sdp_answer-first_common_example :
    parse_sdp_remote read_addr (
      build_sdp_answer 4000 "10.0.0.1" (
        negotiate_codec
          (build_sdp_offer crypto 5000 "10.0.0.2" (pcmu ∷ opus ∷ []) (some "a2V5"))
          (opus ∷ pcmu ∷ [])))
    ≡ some (here, first_common (pcmu ∷ opus ∷ []) (opus ∷ pcmu ∷ []))
unfolding decimal
build_sdp_answer-first_common_example =
    build_sdp_answer-first_common crypto read_addr "10.0.0.2" "10.0.0.1" 5000 4000
      (pcmu ∷ opus ∷ []) (opus ∷ pcmu ∷ []) (some "a2V5") here refl refl (omega arith) (omega arith)
      refl

-- The first payload type is one that we do not have, the second is PCMU's.
abbrev offer_96 : String
offer_96 = "c=IN IP4 10.0.0.1\r\nm=audio 4000 RTP/AVP 96 0\r\n"

create_answer_session-err_example :
    (create_answer_session read_addr host offer_96 (pcmu ∷ []) ≡ err MobileError.media_error) ↔ (
      (MobileError.media_error ≡ MobileError.media_error)
      × ((parse_sdp_remote read_addr offer_96 ≡ none) ⊎ (host.bound_port ≡ none)))
create_answer_session-err_example =
    create_answer_session-err read_addr host offer_96 (pcmu ∷ []) MobileError.media_error

offer_96-negotiated :
    (negotiate_codec offer_96 (pcmu ∷ []) ≡ pcmu)
    × (create_answer_session read_addr host offer_96 (pcmu ∷ []) ≡ err MobileError.media_error)
unfolding negotiate_codec create_answer_session parse_sdp_remote
offer_96-negotiated = (refl, refl)

abbrev accepted : Select MakeCallAnswer
accepted = record {
  cancel_first = false;
  meanwhile = λ e. e;
  answer = ok ("token", build_sdp_answer 4000 "10.0.0.1" pcmu, route_a);
}
