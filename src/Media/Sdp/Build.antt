-- ===== src/Media/Sdp/Build.antt =====
-- src/media.rs, our own SDP: `build_sdp_offer`, `build_sdp_answer` and `negotiate_codec`.
use Prim.Native.String.{String}
use aria_mobile_core.Base.{
  ℕ, ◌==◌, leb, if◌then◌else◌, codes, any, concat, decimal, is_some, trim, Option, none, some, List,
  [], ◌∷◌,
}
use aria_mobile_core.Types.{AudioCodec, opus, pcmu, payload_type, codec_name, clock_rate}
use aria_mobile_core.Gateway.Url.{strip_prefix}
use aria_mobile_core.Media.Sdp.{lines, split_whitespace, parse_u16}

-- `push_str` of a line with its end. What is pushed later is the second text.
abbrev pub push_line : String → String → String
push_line line rest = concat line (concat "\r\n" rest)

abbrev pub profile_of : Option String → String
profile_of none = "RTP/AVP"
profile_of (some key) = "RTP/SAVP"

-- ` {pt}` for each codec, then ` 101`.
abbrev pub offered_types : List AudioCodec → String
offered_types [] = " 101"
offered_types (c ∷ cs) = concat " " (concat (decimal 5 (payload_type c)) (offered_types cs))

abbrev pub media_line : ℕ → String → String → String
media_line local_port profile types =
    concat "m=audio " (concat (decimal 5 local_port) (concat " " (concat profile types)))

abbrev pub rtpmap : AudioCodec → String
rtpmap c = concat "a=rtpmap:" (
    concat (decimal 5 (payload_type c))
      (concat " " (concat (codec_name c) (concat "/" (decimal 5 (clock_rate c))))))

abbrev pub push_codec : AudioCodec → String → String
push_codec AudioCodec.opus rest =
    push_line (concat (rtpmap opus) "/2")
      (push_line (concat "a=fmtp:" (concat (decimal 5 (payload_type opus)) " useinbandfec=1")) rest)
push_codec c rest = push_line (rtpmap c) rest

abbrev pub push_codecs : List AudioCodec → String → String
push_codecs [] rest = rest
push_codecs (c ∷ cs) rest = push_codec c (push_codecs cs rest)

abbrev pub push_head : String → String → String
push_head local_ip rest = push_line "v=0" (
    push_line (concat "o=aria 0 0 IN IP4 " local_ip) (
      push_line "s=Aria Mobile" (push_line (concat "c=IN IP4 " local_ip) (push_line "t=0 0" rest))))

-- `build_sdp_crypto_line` is rtp-engine's.
abbrev pub push_crypto : (String → String) → Option String → String → String
push_crypto crypto_line none rest = rest
push_crypto crypto_line (some key) rest = push_line (crypto_line key) rest

abbrev pub push_events : String → String
push_events rest = push_line "a=rtpmap:101 telephone-event/8000" (push_line "a=fmtp:101 0-16" rest)

unfoldable pub build_sdp_offer :
    (String → String) → ℕ → String → List AudioCodec → Option String → String
build_sdp_offer crypto_line local_port local_ip codecs srtp_key = push_head local_ip (
    push_line (media_line local_port (profile_of srtp_key) (offered_types codecs)) (
      push_codecs codecs
        (push_events (push_crypto crypto_line srtp_key (push_line "a=sendrecv" "")))))

unfoldable pub build_sdp_answer : ℕ → String → AudioCodec → String
build_sdp_answer local_port local_ip chosen_codec = push_head local_ip (
    push_line (media_line local_port "RTP/AVP" (offered_types (chosen_codec ∷ [])))
      (push_codec chosen_codec (push_events (push_line "a=sendrecv" ""))))

-- `str::parse::<u8>`: a `u16` that fits.
abbrev pub parse_u8 : String → Option ℕ
parse_u8 s = elim (parse_u16 (codes s)) [
  | none ↦ none
  | some n ↦ if leb n 255 then some n else none
]

abbrev pub parsed_types : List String → List ℕ
parsed_types [] = []
parsed_types (w ∷ ws) =
    let rest = parsed_types ws in elim (parse_u8 w) [ none ↦ rest | some n ↦ n ∷ rest ]

abbrev pub after_three : List String → List String
after_three (a ∷ b ∷ c ∷ more) = more
after_three _ = []

-- The payload types of the first line of audio.
abbrev pub offered_in : List String → List ℕ
offered_in [] = []
offered_in (l ∷ ls) =
    let rest = offered_in ls in
    if is_some (strip_prefix "m=audio" (trim l))
    then parsed_types (after_three (split_whitespace l))
    else rest

abbrev pub pick : List ℕ → List AudioCodec → AudioCodec
pick offered [] = pcmu
pick offered (pref ∷ prefs) =
    let rest = pick offered prefs in
    if any (λ pt. pt == payload_type pref) offered then pref else rest

unfoldable pub negotiate_codec : String → List AudioCodec → AudioCodec
negotiate_codec offer_sdp our_prefs = pick (offered_in (lines offer_sdp)) our_prefs
