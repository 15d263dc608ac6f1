-- ===== src/Media/Sdp/Agreement.antt =====
-- About src/media.rs: an offer of ours, the codec that we choose for it, and the answer.
use Prim.Native.String.{String}
use text.Mathlib.TextLemmas.{cons-append}
use aria_mobile_core.Base.{
  ℕ, ◌<◌, ◌≡◌, refl, ap, ◌∙◌, ◌==◌, Bool, true, concat, decimal, any, Option, some, List, [], ◌∷◌,
  ◌++◌, map, arith,
}
use aria_mobile_core.Types.{AudioCodec, payload_type}
use aria_mobile_core.Media.{SocketAddr}
use aria_mobile_core.Media.Sdp.{lines, parse_sdp_remote}
use aria_mobile_core.Media.Sdp.Words.{is_word, is_line, is_line-concat, is_word-is_line}
use aria_mobile_core.Media.Sdp.RoundTrip.{build_sdp_answer-parse_sdp_remote, profile_of-is_word}
use aria_mobile_core.Media.Sdp.Negotiate.{
  same_codec, first_common, offered_in-other, offered_in-media,
}
use aria_mobile_core.Media.Sdp.Build.{
  push_line, profile_of, offered_types, media_line, push_codecs, push_head, push_crypto,
  push_events, build_sdp_offer, build_sdp_answer, offered_in, pick, negotiate_codec,
}

offered_in-head :
    (ip rest : String)
    → is_word ip ≡ true
    → offered_in (lines (push_head ip rest)) ≡ offered_in (lines rest)
offered_in-head ip rest w =
    let s : is_line ip ≡ true = is_word-is_line ip (ground arith) in
    let o = is_line-concat "o=aria 0 0 IN IP4 " ip refl s in
    let c = is_line-concat "c=IN IP4 " ip refl s in
    let rest4 = push_line "t=0 0" rest in
    let rest3 = push_line (concat "c=IN IP4 " ip) rest4 in
    let rest2 = push_line "s=Aria Mobile" rest3 in
    offered_in-other "v=0" (push_line (concat "o=aria 0 0 IN IP4 " ip) rest2) refl refl
    ∙ offered_in-other (concat "o=aria 0 0 IN IP4 " ip) rest2 o
        (rw (cons-append "o" "=aria 0 0 IN IP4 " ip) refl)
    ∙ offered_in-other "s=Aria Mobile" rest3 refl refl
    ∙ offered_in-other (concat "c=IN IP4 " ip) rest4 c (rw (cons-append "c" "=IN IP4 " ip) refl)
    ∙ offered_in-other "t=0 0" rest refl refl

payload_type-same : (a b : AudioCodec) → (payload_type b == payload_type a) ≡ same_codec a b
payload_type-same AudioCodec.pcmu AudioCodec.pcmu = refl
payload_type-same AudioCodec.pcmu AudioCodec.pcma = refl
payload_type-same AudioCodec.pcmu AudioCodec.opus = refl
payload_type-same AudioCodec.pcmu AudioCodec.g729 = refl
payload_type-same AudioCodec.pcma AudioCodec.pcmu = refl
payload_type-same AudioCodec.pcma AudioCodec.pcma = refl
payload_type-same AudioCodec.pcma AudioCodec.opus = refl
payload_type-same AudioCodec.pcma AudioCodec.g729 = refl
payload_type-same AudioCodec.opus AudioCodec.pcmu = refl
payload_type-same AudioCodec.opus AudioCodec.pcma = refl
payload_type-same AudioCodec.opus AudioCodec.opus = refl
payload_type-same AudioCodec.opus AudioCodec.g729 = refl
payload_type-same AudioCodec.g729 AudioCodec.pcmu = refl
payload_type-same AudioCodec.g729 AudioCodec.pcma = refl
payload_type-same AudioCodec.g729 AudioCodec.opus = refl
payload_type-same AudioCodec.g729 AudioCodec.g729 = refl

no_event : (a : AudioCodec) → (101 == payload_type a) ≡ Bool.false
no_event AudioCodec.pcmu = refl
no_event AudioCodec.pcma = refl
no_event AudioCodec.opus = refl
no_event AudioCodec.g729 = refl

any-offered :
    (pref : AudioCodec) (codecs : List AudioCodec)
    → any (λ pt. pt == payload_type pref) (map payload_type codecs ++ 101 ∷ [])
      ≡ any (same_codec pref) codecs
any-offered pref [] = rw (no_event pref) refl
any-offered pref (c ∷ cs) = rw (payload_type-same pref c, any-offered pref cs) refl

pick-first_common :
    (codecs prefs : List AudioCodec)
    → pick (map payload_type codecs ++ 101 ∷ []) prefs ≡ first_common codecs prefs
pick-first_common codecs [] = refl
pick-first_common codecs (pref ∷ prefs) =
    rw (any-offered pref codecs, pick-first_common codecs prefs) refl

-- The codec that we choose for an offer of ours is the first of our preferences that is among the
-- codecs offered, and PCMU where none is, whatever the port below 2^16, the IP address (a text
-- without blanks) and the key.
pub negotiate_codec-first_common :
    (crypto_line : String → String) (ip : String) (port : ℕ) (codecs prefs : List AudioCodec)
    (key : Option String)
    → is_word ip ≡ true
    → port < 65536
    → negotiate_codec (build_sdp_offer crypto_line port ip codecs key) prefs
      ≡ first_common codecs prefs
unfolding negotiate_codec build_sdp_offer
negotiate_codec-first_common crypto_line ip port codecs prefs key w h =
    let maps =
      push_codecs codecs (push_events (push_crypto crypto_line key (push_line "a=sendrecv" ""))) in
    let media = push_line (media_line port (profile_of key) (offered_types codecs)) maps in
    ap (λ o. pick o prefs)
      (offered_in-head ip media w
        ∙ offered_in-media port (profile_of key) codecs maps h (profile_of-is_word key))
    ∙ pick-first_common codecs prefs

-- A call between two of us: what the caller reads of the answer to its offer is the address of the
-- answering side and the codec that this side has chosen. The IP addresses are texts without blanks,
-- the ports are below 2^16, and the standard library reads the address of the answering side.
pub build_sdp_answer-first_common :
    (crypto_line : String → String) (parse_addr : String → Option SocketAddr) (ip ip' : String)
    (port port' : ℕ) (codecs prefs : List AudioCodec) (key : Option String) (addr' : SocketAddr)
    → is_word ip ≡ true
    → is_word ip' ≡ true
    → port < 65536
    → port' < 65536
    → parse_addr (concat ip' (concat ":" (decimal 5 port'))) ≡ some addr'
    → parse_sdp_remote parse_addr (
        build_sdp_answer port' ip'
          (negotiate_codec (build_sdp_offer crypto_line port ip codecs key) prefs))
      ≡ some (addr', first_common codecs prefs)
build_sdp_answer-first_common crypto_line parse_addr ip ip' port port' codecs prefs key addr' w w' h
      h' a =
    rw (negotiate_codec-first_common crypto_line ip port codecs prefs key w h) (
      build_sdp_answer-parse_sdp_remote parse_addr ip' port' (first_common codecs prefs) addr' w' h'
        a)
