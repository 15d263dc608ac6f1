-- ===== src/Media/Create/Offered.antt =====
-- About src/media.rs: what a session that was just opened has in common with its SDP.
use aria_mobile_core.Base.{
  ℕ, ◌<◌, ◌≡◌, ◌⊎◌, ◌↔◌, refl, sym, ◌∙◌, true, false, concat, decimal, String, Option, none, some,
  List, inl, inr, Option-cases,
}
use aria_mobile_core.Types.{AudioCodec, MobileError, ok, err}
use aria_mobile_core.Media.{SocketAddr, MobileMediaSession, new_session}
use aria_mobile_core.Media.Sdp.{parse_sdp_remote}
use aria_mobile_core.Media.Sdp.Words.{is_word}
use aria_mobile_core.Media.Sdp.RoundTrip.{build_sdp_answer-parse_sdp_remote}
use aria_mobile_core.Media.Sdp.Build.{push_line, build_sdp_answer, negotiate_codec}
use aria_mobile_core.Media.Create.{Host, advertised_ip, open_session, create_answer_session}

-- An opened session: neither held nor muted, and running, at this port.
abbrev pub IsOpened : ℕ → MobileMediaSession → Type 0
IsOpened port m =
    (m.local_port ≡ port)
    × (m.on_hold ≡ false)
    × (m.muted ≡ false)
    × (m.running ≡ true)
    × (m.srtp_out ≡ none)
    × (m.srtp_in ≡ none)

-- This line stands in the text, with its end.
abbrev pub HasLine : String → String → Type 0
HasLine line s = (before : String) × (after : String) × (s ≡ concat before (push_line line after))

answer_fails :
    (parse_addr : String → Option SocketAddr) (host : Host) (offer : String)
    (prefs : List AudioCodec)
    → (parse_sdp_remote parse_addr offer ≡ none) ⊎ (host.bound_port ≡ none)
    → create_answer_session parse_addr host offer prefs ≡ err MobileError.media_error
unfolding create_answer_session
answer_fails parse_addr host offer prefs (inl n) = rw (create_answer_session, n) refl
answer_fails parse_addr host offer prefs (inr b) =
    elim (Option-cases (parse_sdp_remote parse_addr offer)) [
      | inl n ↦ rw (create_answer_session, n) refl
      | inr (p, n) ↦ rw (create_answer_session, n, open_session, b) refl
    ]

answer_goes_on :
    (parse_addr : String → Option SocketAddr) (host : Host) (offer : String)
    (prefs : List AudioCodec) (remote : SocketAddr) (c : AudioCodec) (port : ℕ)
    → parse_sdp_remote parse_addr offer ≡ some (remote, c)
    → host.bound_port ≡ some port
    → (r : MobileMediaSession × String) × (create_answer_session parse_addr host offer prefs ≡ ok r)
unfolding create_answer_session
answer_goes_on parse_addr host offer prefs remote c port n b = (
  (
    new_session remote (negotiate_codec offer prefs) port host.ssrc,
    build_sdp_answer (new_session remote (negotiate_codec offer prefs) port host.ssrc).local_port
        (advertised_ip host) (negotiate_codec offer prefs),
  ),
  rw (create_answer_session, n, open_session, b) refl,
)

-- Answering an offer fails only with a media error, and only where the offer cannot be parsed or no
-- port is bound; and it does fail there.
pub create_answer_session-err :
    (parse_addr : String → Option SocketAddr) (host : Host) (offer : String)
    (prefs : List AudioCodec) (x : MobileError)
    → (create_answer_session parse_addr host offer prefs ≡ err x) ↔ (
        (x ≡ MobileError.media_error)
        × ((parse_sdp_remote parse_addr offer ≡ none) ⊎ (host.bound_port ≡ none)))
create_answer_session-err parse_addr host offer prefs x =
    let fails = answer_fails parse_addr host offer prefs in
    elim (Option-cases (parse_sdp_remote parse_addr offer)) [
      | inl n ↦
          let e = fails (inl n) in
          ((λ h. let same = sym e ∙ h in (cc, inl n)), (λ h. rw (e, h.0) refl))
      | inr (p, n) ↦ elim (Option-cases host.bound_port) [
        | inl b ↦
            let e = fails (inr b) in
            ((λ h. let same = sym e ∙ h in (cc, inr b)), (λ h. rw (e, h.0) refl))
        | inr (port, b) ↦
            let (r, e) = answer_goes_on parse_addr host offer prefs p.0 p.1 port n b in
            ((λ h. let wrong = sym e ∙ h in cc), (λ h. absurd (neither h.1 p port n b)))
      ]
    ]
  where
    neither :
        (parse_sdp_remote parse_addr offer ≡ none) ⊎ (host.bound_port ≡ none)
        → (p : SocketAddr × AudioCodec) (port : ℕ) → parse_sdp_remote parse_addr offer ≡ some p
        → host.bound_port ≡ some port
        → ⊥
    neither (inl a) p port n b = let wrong = sym a ∙ n in cc
    neither (inr a) p port n b = let wrong = sym a ∙ b in cc

-- Where the offer is parsed and a port is bound, the session is open towards the caller, with the codec
-- negotiated, and a caller who parses the answer finds the address that was discovered, with the
-- session's own port, and the session's codec. The address is a text without blanks that the standard
-- library reads with that port, which fits in 16 bits.
pub create_answer_session-IsOpened :
    (parse_addr : String → Option SocketAddr) (host : Host) (offer : String)
    (prefs : List AudioCodec) (remote : SocketAddr) (c : AudioCodec) (port : ℕ) (addr : SocketAddr)
    → parse_sdp_remote parse_addr offer ≡ some (remote, c)
    → host.bound_port ≡ some port
    → port < 65536
    → is_word (advertised_ip host) ≡ true
    → parse_addr (concat (advertised_ip host) (concat ":" (decimal 5 port))) ≡ some addr
    → (m : MobileMediaSession) × (sdp : String) × (create_answer_session parse_addr host offer prefs
        ≡ ok (m, sdp))
      × IsOpened port m
      × (m.remote_addr ≡ remote)
      × (m.codec ≡ negotiate_codec offer prefs)
      × (parse_sdp_remote parse_addr sdp ≡ some (addr, m.codec))
unfolding create_answer_session new_session
create_answer_session-IsOpened parse_addr host offer prefs remote c port addr p b h w a =
    let chosen = negotiate_codec offer prefs in
    (
      new_session remote chosen port host.ssrc,
      build_sdp_answer port (advertised_ip host) chosen,
      rw (create_answer_session, p, open_session, b) refl,
      (refl, refl, refl, refl, refl, refl),
      refl,
      refl,
      build_sdp_answer-parse_sdp_remote parse_addr (advertised_ip host) port chosen addr w h a,
    )
