-- ===== src/Engine/Dial/Opened.antt =====
-- src/lib.rs, `make_call_with_id` on a media session that `create_offer_session` opens.
use aria_mobile_core.Base.{refl, subst, ℕ, Bool, String, Option, none, some, List}
use aria_mobile_core.Types.{AudioCodec, Result, ok, err}
use aria_mobile_core.Media.{MobileMediaSession, MediaLib, new_session, set_offered_srtp_key}
use aria_mobile_core.Media.Create.{Host, create_offer_session}
use aria_mobile_core.Engine.State.{Engine}
use aria_mobile_core.Engine.Controls.Active.{OneActive}
use aria_mobile_core.Engine.Dial.{Select, Offer, MakeCallAnswer, chosen_codecs, make_call_with_id}
use aria_mobile_core.Engine.Dial.Connect.{IsFreshMedia, Keeps, dial-OneActive}

abbrev pub offer_of : Result (MobileMediaSession × String) → Offer
offer_of (err x) = err x
offer_of (ok (m, sdp)) = ok (some m, sdp)

-- The `offer` of `make_call_with_id`: a session of its own on the codecs chosen.
abbrev pub offer_session :
    (String → String) → Host → (Engine → Engine) → Bool → List AudioCodec → Select Offer
offer_session crypto_line host meanwhile cancel_first codecs = record {
  meanwhile = meanwhile;
  cancel_first = cancel_first;
  answer = offer_of (create_offer_session crypto_line host codecs);
}

abbrev IsFreshOffer : Offer → Type 0
IsFreshOffer (err x) = Unit
IsFreshOffer (ok (m, sdp)) = IsFreshMedia m

create_offer_session-IsFreshOffer :
    (crypto_line : String → String) (host : Host) (codecs : List AudioCodec)
    → IsFreshOffer (offer_of (create_offer_session crypto_line host codecs))
unfolding create_offer_session new_session set_offered_srtp_key
create_offer_session-IsFreshOffer crypto_line host codecs = by_port host.bound_port
  where
    by_port :
        (p : Option ℕ)
        → IsFreshOffer
            (offer_of (create_offer_session crypto_line (record host { bound_port = p }) codecs))
    by_port none = tt
    by_port (some port) = (refl, refl, refl)

-- If at most one call is off hold, and every call's session is held and muted as reported, then so
-- it is after a call is made with a session that the call opens itself, whatever becomes of the
-- session and the call and whichever codecs are asked for, provided that what other threads do during
-- the two waits keeps this.
pub make_call_with_id-OneActive :
    (lib : MediaLib) (crypto_line : String → String) (host : Host) (e : Engine) (id uri : String)
    (preferred : List AudioCodec) (meanwhile : Engine → Engine) (cancel_first : Bool)
    (request : Select MakeCallAnswer)
    → Keeps meanwhile
    → Keeps request.meanwhile
    → OneActive e.calls
    → OneActive
        (make_call_with_id lib e id uri preferred
          (offer_session crypto_line host meanwhile cancel_first)
          request).0.calls
unfolding make_call_with_id
make_call_with_id-OneActive lib crypto_line host e id uri preferred meanwhile cancel_first request
      ko kr v =
    let codecs = chosen_codecs e preferred in
    let offer = offer_session crypto_line host meanwhile cancel_first codecs in
    dial-OneActive lib e id uri offer request
      (λ m sdp h. subst IsFreshOffer h (create_offer_session-IsFreshOffer crypto_line host codecs))
      ko kr v
