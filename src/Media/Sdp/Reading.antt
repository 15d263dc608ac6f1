-- ===== src/Media/Sdp/Reading.antt =====
-- About src/media.rs: `parse_sdp_remote` on each line of our own offers and answers.
use Prim.Native.String.{String}
use Prim.Native.Char.{Char, code}
use text.Mathlib.TextLemmas.{cons-append}
use aria_mobile_core.Base.{
  ℕ, ◌<◌, ◌≡◌, refl, ap, ◌∙◌, ◌==◌, Bool, true, false, not, ◌&&◌, is_blank, trim_end, trim, concat,
  decimal, is_some, some, none, List, [], ◌∷◌, arith,
}
use aria_mobile_core.Types.{AudioCodec, opus, pcmu, pcma, g729, payload_type}
use aria_mobile_core.Gateway.Url.{strip_prefix}
use aria_mobile_core.Media.Sdp.{lines, split_whitespace, SdpRemote, codec_of, sdp_line, sdp_lines}
use aria_mobile_core.Media.Sdp.Decimal.{decimal-parse_u16}
use aria_mobile_core.Media.Sdp.Words.{
  is_word, is_line, lines-crlf, strip_prefix-concat, is_line-concat, is_word-is_line,
  is_word-IsTrimmed, concat-IsTrimmed, trim-line, trim-word, trim_end-solid, split_whitespace-word,
}
use aria_mobile_core.Media.Sdp.MediaLine.{
  payload_type-is_word, types_tail, offered_types-tail, media_line-is_line, trim-media_line,
  split_whitespace-media_line,
}
use aria_mobile_core.Media.Sdp.Build.{
  push_line, offered_types, media_line, rtpmap, push_codec, push_codecs, push_head, push_events,
}

-- The first character is that of no line that is looked at.
abbrev other_start : String → Bool
other_start String.[] = false
other_start (String.◌∷◌ c s) =
    not (is_blank (code c)) && (not (code c == b'c') && not (code c == b'm'))

pub sdp_lines-push_line :
    (r : SdpRemote) (l rest : String)
    → is_line l ≡ true
    → sdp_lines r (lines (push_line l rest))
      ≡ sdp_lines (sdp_line r (trim (concat l "\r"))) (lines rest)
sdp_lines-push_line r l rest h = rw (lines-crlf l rest h) refl

sdp_line-other :
    (r : SdpRemote) (l : String) → other_start l ≡ true → sdp_line r (trim (concat l "\r")) ≡ r
sdp_line-other r String.[] h = absurd (ground arith)
sdp_line-other r (String.◌∷◌ c l) h =
    let b : is_blank (code c) ≡ false = ground arith in
    let t : trim (concat (String.◌∷◌ c l) "\r") ≡ String.◌∷◌ c (trim_end (concat l "\r")) =
      rw (cons-append c l "\r", b, trim_end-solid c (concat l "\r") b) refl in
    ap (sdp_line r) t ∙ untouched c (trim_end (concat l "\r")) h
  where
    untouched :
        (d : Char) (s : String)
        → other_start (String.◌∷◌ d s) ≡ true
        → sdp_line r (String.◌∷◌ d s) ≡ r
    untouched d s o =
        let n1 : (b'c' == code d) ≡ false = ground arith in
        let n2 : (b'm' == code d) ≡ false = ground arith in rw (sdp_line, n1, strip_prefix, n2) refl

pub sdp_lines-other :
    (r : SdpRemote) (l rest : String)
    → is_line l ≡ true
    → other_start l ≡ true
    → sdp_lines r (lines (push_line l rest)) ≡ sdp_lines r (lines rest)
sdp_lines-other r l rest h o =
    sdp_lines-push_line r l rest h ∙ ap (λ r'. sdp_lines r' (lines rest)) (sdp_line-other r l o)

address_line :
    (r : SdpRemote) (ip rest : String)
    → is_word ip ≡ true
    → sdp_lines r (lines (push_line (concat "c=IN IP4 " ip) rest))
      ≡ sdp_lines (record r { ip = some ip }) (lines rest)
address_line r ip rest w =
    let l : is_line (concat "c=IN IP4 " ip) ≡ true =
      is_line-concat "c=IN IP4 " ip refl (is_word-is_line ip (ground arith)) in
    let t =
      trim-line (concat "c=IN IP4 " ip) (rw (cons-append "c" "=IN IP4 " ip) refl)
        (concat-IsTrimmed "c=IN IP4 " ip (is_word-IsTrimmed ip w)) in
    rw
      (
        sdp_lines-push_line r (concat "c=IN IP4 " ip) rest l,
        t,
        sdp_line,
        strip_prefix-concat "c=IN IP4 " ip,
        trim-word ip w,
      )
      refl

pub head_lines :
    (r : SdpRemote) (ip rest : String)
    → is_word ip ≡ true
    → sdp_lines r (lines (push_head ip rest)) ≡ sdp_lines (record r { ip = some ip }) (lines rest)
head_lines r ip rest w =
    let o : is_line (concat "o=aria 0 0 IN IP4 " ip) ≡ true =
      is_line-concat "o=aria 0 0 IN IP4 " ip refl (is_word-is_line ip (ground arith)) in
    let rest4 = push_line "t=0 0" rest in
    let rest3 = push_line (concat "c=IN IP4 " ip) rest4 in
    let rest2 = push_line "s=Aria Mobile" rest3 in
    sdp_lines-other r "v=0" (push_line (concat "o=aria 0 0 IN IP4 " ip) rest2) refl refl
    ∙ sdp_lines-other r (concat "o=aria 0 0 IN IP4 " ip) rest2 o
        (rw (cons-append "o" "=aria 0 0 IN IP4 " ip) refl)
    ∙ sdp_lines-other r "s=Aria Mobile" rest3 refl refl
    ∙ address_line r ip rest4 w
    ∙ sdp_lines-other (record r { ip = some ip }) "t=0 0" rest refl refl

pub codec_of-payload_type : (c : AudioCodec) → codec_of (decimal 5 (payload_type c)) ≡ some c
unfolding decimal
codec_of-payload_type AudioCodec.pcmu = refl
codec_of-payload_type AudioCodec.pcma = refl
codec_of-payload_type AudioCodec.opus = refl
codec_of-payload_type AudioCodec.g729 = refl

-- The first word of the payload types is that of the first codec.
types_tail-words :
    (c : AudioCodec) (cs : List AudioCodec)
    → split_whitespace (types_tail (c ∷ cs))
      ≡ decimal 5 (payload_type c) ∷ split_whitespace (types_tail cs)
types_tail-words c cs =
    rw
      (
        offered_types-tail cs,
        split_whitespace-word (decimal 5 (payload_type c)) (types_tail cs) (payload_type-is_word c),
      )
      refl

pub audio_line-media_line :
    (r : SdpRemote) (port : ℕ) (profile : String) (c : AudioCodec) (cs : List AudioCodec)
    (rest : String)
    → port < 65536
    → is_word profile ≡ true
    → sdp_lines r (lines (push_line (media_line port profile (offered_types (c ∷ cs))) rest))
      ≡ sdp_lines (record r { port = some port; codec = some c }) (lines rest)
audio_line-media_line r port profile c cs rest h w =
    let line = media_line port profile (offered_types (c ∷ cs)) in
    let trimmed = trim-media_line port profile (c ∷ cs) h w in
    let words = split_whitespace-media_line port profile (c ∷ cs) h w in
    let start : is_some (strip_prefix "m=audio " line) ≡ true = ap is_some (
      strip_prefix-concat "m=audio "
        (concat (decimal 5 port) (concat " " (concat profile (offered_types (c ∷ cs)))))) in
    let address : strip_prefix "c=IN IP4 " line ≡ none =
      rw
        (cons-append "m" "=audio "
          (concat (decimal 5 port) (concat " " (concat profile (offered_types (c ∷ cs))))))
        refl in
    let read : sdp_line r line ≡ record r { port = some port; codec = some c } =
      rw
        (
          sdp_line,
          address,
          start,
          words,
          types_tail-words c cs,
          decimal-parse_u16 port h,
          codec_of-payload_type c,
        )
        refl in
    sdp_lines-push_line r line rest (media_line-is_line port profile (c ∷ cs) h w)
    ∙ ap (λ r'. sdp_lines r' (lines rest)) (ap (sdp_line r) trimmed ∙ read)

pub codec_lines :
    (r : SdpRemote) (c : AudioCodec) (rest : String)
    → sdp_lines r (lines (push_codec c rest)) ≡ sdp_lines r (lines rest)
unfolding decimal
codec_lines r AudioCodec.pcmu rest = sdp_lines-other r (rtpmap pcmu) rest refl refl
codec_lines r AudioCodec.pcma rest = sdp_lines-other r (rtpmap pcma) rest refl refl
codec_lines r AudioCodec.g729 rest = sdp_lines-other r (rtpmap g729) rest refl refl
codec_lines r AudioCodec.opus rest =
    sdp_lines-other r (concat (rtpmap opus) "/2") (push_line fmtp rest) refl refl
    ∙ sdp_lines-other r fmtp rest refl refl
  where
    fmtp : String
    fmtp = concat "a=fmtp:" (concat (decimal 5 (payload_type opus)) " useinbandfec=1")

pub codecs_lines :
    (r : SdpRemote) (codecs : List AudioCodec) (rest : String)
    → sdp_lines r (lines (push_codecs codecs rest)) ≡ sdp_lines r (lines rest)
codecs_lines r [] rest = refl
codecs_lines r (c ∷ cs) rest = codec_lines r c (push_codecs cs rest) ∙ codecs_lines r cs rest

pub events_lines :
    (r : SdpRemote) (rest : String)
    → sdp_lines r (lines (push_events rest)) ≡ sdp_lines r (lines rest)
events_lines r rest =
    sdp_lines-other r "a=rtpmap:101 telephone-event/8000" (push_line "a=fmtp:101 0-16" rest) refl
      refl
    ∙ sdp_lines-other r "a=fmtp:101 0-16" rest refl refl

pub crypto_start : (l : String) → is_some (strip_prefix "a=crypto:" l) ≡ true → other_start l ≡ true
crypto_start String.[] h = absurd (ground arith)
crypto_start (String.◌∷◌ c l) h = ground arith
