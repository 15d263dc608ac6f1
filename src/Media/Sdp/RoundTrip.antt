-- ===== src/Media/Sdp/RoundTrip.antt =====
-- About src/media.rs: `parse_sdp_remote` on our own offers and answers.
use Prim.Native.String.{String}
use aria_mobile_core.Base.{
  ℕ, ◌<◌, ◌≡◌, refl, ap, ◌∙◌, true, concat, decimal, is_some, Option, some, none, List, [], ◌∷◌,
}
use aria_mobile_core.Types.{AudioCodec}
use aria_mobile_core.Gateway.Url.{strip_prefix}
use aria_mobile_core.Media.{SocketAddr}
use aria_mobile_core.Media.Sdp.{lines, SdpRemote, sdp_lines, remote_of, parse_sdp_remote}
use aria_mobile_core.Media.Sdp.Words.{is_word, is_line}
use aria_mobile_core.Media.Sdp.Reading.{
  sdp_lines-other, head_lines, audio_line-media_line, codec_lines, codecs_lines, events_lines,
  crypto_start,
}
use aria_mobile_core.Media.Sdp.Build.{
  push_line, profile_of, offered_types, media_line, push_codec, push_codecs, push_crypto,
  push_events, build_sdp_offer, build_sdp_answer,
}

abbrev nothing_read : SdpRemote
nothing_read = record { ip = none; port = none; codec = none }

pub profile_of-is_word : (key : Option String) → is_word (profile_of key) ≡ true
profile_of-is_word none = refl
profile_of-is_word (some key) = refl

crypto_lines :
    (crypto_line : String → String) (r : SdpRemote) (key : Option String) (rest : String)
    → ((k : String) → is_line (crypto_line k) ≡ true)
    → ((k : String) → is_some (strip_prefix "a=crypto:" (crypto_line k)) ≡ true)
    → sdp_lines r (lines (push_crypto crypto_line key rest)) ≡ sdp_lines r (lines rest)
crypto_lines crypto_line r none rest l c = refl
crypto_lines crypto_line r (some k) rest l c =
    sdp_lines-other r (crypto_line k) rest (l k) (crypto_start (crypto_line k) (c k))

last_line : (r : SdpRemote) → sdp_lines r (lines (push_line "a=sendrecv" "")) ≡ r
last_line r = sdp_lines-other r "a=sendrecv" "" refl refl

offer_lines :
    (crypto_line : String → String) (ip : String) (port : ℕ) (c : AudioCodec) (cs : List AudioCodec)
    (key : Option String)
    → is_word ip ≡ true
    → port < 65536
    → ((k : String) → is_line (crypto_line k) ≡ true)
    → ((k : String) → is_some (strip_prefix "a=crypto:" (crypto_line k)) ≡ true)
    → sdp_lines nothing_read (lines (build_sdp_offer crypto_line port ip (c ∷ cs) key))
      ≡ record { ip = some ip; port = some port; codec = some c }
unfolding build_sdp_offer
offer_lines crypto_line ip port c cs key w h l k =
    let r1 : SdpRemote = record { ip = some ip; port = none; codec = none } in
    let r2 : SdpRemote = record { ip = some ip; port = some port; codec = some c } in
    let end = push_line "a=sendrecv" "" in
    let crypto = push_crypto crypto_line key end in
    let maps = push_codecs (c ∷ cs) (push_events crypto) in
    let media = push_line (media_line port (profile_of key) (offered_types (c ∷ cs))) maps in
    head_lines nothing_read ip media w
    ∙ audio_line-media_line r1 port (profile_of key) c cs maps h (profile_of-is_word key)
    ∙ codecs_lines r2 (c ∷ cs) (push_events crypto)
    ∙ events_lines r2 crypto
    ∙ crypto_lines crypto_line r2 key end l k
    ∙ last_line r2

answer_lines :
    (ip : String) (port : ℕ) (c : AudioCodec)
    → is_word ip ≡ true
    → port < 65536
    → sdp_lines nothing_read (lines (build_sdp_answer port ip c))
      ≡ record { ip = some ip; port = some port; codec = some c }
unfolding build_sdp_answer
answer_lines ip port c w h =
    let r1 : SdpRemote = record { ip = some ip; port = none; codec = none } in
    let r2 : SdpRemote = record { ip = some ip; port = some port; codec = some c } in
    let end = push_line "a=sendrecv" "" in
    let maps = push_codec c (push_events end) in
    head_lines nothing_read ip (push_line (media_line port "RTP/AVP" (offered_types (c ∷ []))) maps)
      w
    ∙ audio_line-media_line r1 port "RTP/AVP" c [] maps h refl
    ∙ codec_lines r2 c (push_events end)
    ∙ events_lines r2 end
    ∙ last_line r2

remote_of-some :
    (parse_addr : String → Option SocketAddr) (ip : String) (port : ℕ) (c : AudioCodec)
    (addr : SocketAddr)
    → parse_addr (concat ip (concat ":" (decimal 5 port))) ≡ some addr
    → remote_of parse_addr (record { ip = some ip; port = some port; codec = some c })
      ≡ some (addr, c)
remote_of-some parse_addr ip port c addr a = rw (remote_of, a) refl

-- Our offer is read back by our own parser: the address is that of the IP address and the port that
-- were put in, the codec is the first of the codecs offered, whatever the other codecs are and with
-- or without an SRTP key. The IP address is a text without blanks, the port fits in 16 bits, the
-- codecs are not empty, the line that rtp-engine makes of a key is an attribute `a=crypto:` on one
-- line, and the standard library reads the address.
pub build_sdp_offer-parse_sdp_remote :
    (crypto_line : String → String) (parse_addr : String → Option SocketAddr) (ip : String)
    (port : ℕ) (c : AudioCodec) (cs : List AudioCodec) (key : Option String) (addr : SocketAddr)
    → is_word ip ≡ true
    → port < 65536
    → ((k : String) → is_line (crypto_line k) ≡ true)
    → ((k : String) → is_some (strip_prefix "a=crypto:" (crypto_line k)) ≡ true)
    → parse_addr (concat ip (concat ":" (decimal 5 port))) ≡ some addr
    → parse_sdp_remote parse_addr (build_sdp_offer crypto_line port ip (c ∷ cs) key)
      ≡ some (addr, c)
unfolding parse_sdp_remote
build_sdp_offer-parse_sdp_remote crypto_line parse_addr ip port c cs key addr w h l k a =
    ap (remote_of parse_addr) (offer_lines crypto_line ip port c cs key w h l k)
    ∙ remote_of-some parse_addr ip port c addr a

-- Our answer is read back by our own parser, which is what the other side of a call between two of
-- us does with it: the address that was put in and the codec that was chosen. The IP address is a text
-- without blanks, the port fits in 16 bits, and the standard library reads the address.
pub build_sdp_answer-parse_sdp_remote :
    (parse_addr : String → Option SocketAddr) (ip : String) (port : ℕ) (c : AudioCodec)
    (addr : SocketAddr)
    → is_word ip ≡ true
    → port < 65536
    → parse_addr (concat ip (concat ":" (decimal 5 port))) ≡ some addr
    → parse_sdp_remote parse_addr (build_sdp_answer port ip c) ≡ some (addr, c)
unfolding parse_sdp_remote
build_sdp_answer-parse_sdp_remote parse_addr ip port c addr w h a =
    ap (remote_of parse_addr) (answer_lines ip port c w h)
    ∙ remote_of-some parse_addr ip port c addr a
