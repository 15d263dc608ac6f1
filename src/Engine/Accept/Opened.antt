-- ===== src/Engine/Accept/Opened.antt =====
-- src/lib.rs, `accept_incoming_call` on a media session that `create_answer_session` opens.
use aria_mobile_core.Base.{refl, subst, String, Option, some, List, inl, inr, Option-cases}
use aria_mobile_core.Types.{AudioCodec, CallOffer, Result, ok, err}
use aria_mobile_core.Gateway.Routes.{Route}
use aria_mobile_core.Media.{SocketAddr, MobileMediaSession, new_session}
use aria_mobile_core.Media.Sdp.{parse_sdp_remote}
use aria_mobile_core.Media.Create.{Host, open_session, create_answer_session}
use aria_mobile_core.Engine.State.{Await, Engine}
use aria_mobile_core.Engine.Controls.Active.{OneActive}
use aria_mobile_core.Engine.Dial.Connect.{IsFreshMedia, Keeps}
use aria_mobile_core.Engine.Accept.{AcceptRequests, accept_incoming_call}
use aria_mobile_core.Engine.Accept.Connect.{accept_incoming_call-OneActive}

-- The offer that the gateway gave; without one no session is opened.
abbrev pub given_sdp : Result (CallOffer × Route) → String
given_sdp (err x) = ""
given_sdp (ok (offer, route)) = offer.sdp_offer

-- The three waits of `accept_incoming_call`, with the session opened for the offer of the first.
abbrev pub answer_session :
    (String → Option SocketAddr)
    → Host
    → List AudioCodec
    → Await (Result (CallOffer × Route))
    → (Engine → Engine)
    → Await (Result (Unit {0}))
    → AcceptRequests
answer_session parse_addr host codecs offer meanwhile accept = record {
  offer = offer;
  session = record {
    meanwhile = meanwhile;
    answer = create_answer_session parse_addr host (given_sdp offer.answer) codecs;
  };
  accept = accept;
}

abbrev IsFreshAnswer : Result (MobileMediaSession × String) → Type 0
IsFreshAnswer (err x) = Unit
IsFreshAnswer (ok (m, sdp)) = IsFreshMedia (some m)

create_answer_session-IsFreshAnswer :
    (parse_addr : String → Option SocketAddr) (host : Host) (offer : String)
    (codecs : List AudioCodec)
    → IsFreshAnswer (create_answer_session parse_addr host offer codecs)
unfolding create_answer_session new_session
create_answer_session-IsFreshAnswer parse_addr host offer codecs =
    elim (Option-cases (parse_sdp_remote parse_addr offer)) [
      | inl n ↦ rw (create_answer_session, n) tt
      | inr (p, n) ↦ elim (Option-cases host.bound_port) [
        | inl b ↦ rw (create_answer_session, n, open_session, b) tt
        | inr (port, b) ↦ rw (create_answer_session, n, open_session, b) (refl, refl, refl)
      ]
    ]

-- If at most one call is off hold, and every call's session is held and muted as reported, then so
-- it is after an accept with a session that is opened for the offer, whatever the gateway answers,
-- whether or not the session can be opened and whichever codecs are preferred, provided that what
-- other threads do during the three waits keeps this.
pub accept_incoming_call-answer_session :
    (parse_addr : String → Option SocketAddr) (host : Host) (e : Engine) (token : String)
    (codecs : List AudioCodec) (offer : Await (Result (CallOffer × Route)))
    (meanwhile : Engine → Engine) (accept : Await (Result (Unit {0})))
    → Keeps offer.meanwhile
    → Keeps meanwhile
    → Keeps accept.meanwhile
    → OneActive e.calls
    → OneActive
        (accept_incoming_call e token
          (answer_session parse_addr host codecs offer meanwhile accept)).0.calls
accept_incoming_call-answer_session parse_addr host e token codecs offer meanwhile accept ko ks ka
      v =
    let sdp = given_sdp offer.answer in
    accept_incoming_call-OneActive e token
      (answer_session parse_addr host codecs offer meanwhile accept)
      (λ m s h.
        subst IsFreshAnswer h (create_answer_session-IsFreshAnswer parse_addr host sdp codecs))
      ko ks ka v
