-- ===== src/Media/Sdp/Negotiate.antt =====
-- About src/media.rs: `negotiate_codec` on our own offer, and the answer to it.
use Prim.Native.String.{String}
use Prim.Native.Char.{code}
use text.Mathlib.TextLemmas.{cons-append, append_assoc}
use aria_mobile_core.Base.{
  ℕ, ◌<◌, ◌≡◌, refl, ◌==◌, Bool, true, false, not, ◌&&◌, if◌then◌else◌, is_blank, trim, trim_end,
  concat, decimal, any, is_some, some, List, [], ◌∷◌, ◌++◌, map, arith,
}
use aria_mobile_core.Types.{AudioCodec, pcmu, payload_type}
use aria_mobile_core.Gateway.Url.{strip_prefix}
use aria_mobile_core.Media.Sdp.{lines, split_whitespace}
use aria_mobile_core.Media.Sdp.Words.{
  is_word, is_line, lines-crlf, trim_end-solid, strip_prefix-concat, split_whitespace-word,
}
use aria_mobile_core.Media.Sdp.MediaLine.{
  decimal-is_word, payload_type-is_word, types_tail, offered_types-tail, media_line-is_line,
  trim-media_line,
}
use aria_mobile_core.Media.Sdp.Build.{
  push_line, offered_types, media_line, parse_u8, parsed_types, offered_in,
}

abbrev pub same_codec : AudioCodec → AudioCodec → Bool
same_codec AudioCodec.pcmu AudioCodec.pcmu = true
same_codec AudioCodec.pcma AudioCodec.pcma = true
same_codec AudioCodec.opus AudioCodec.opus = true
same_codec AudioCodec.g729 AudioCodec.g729 = true
same_codec _ _ = false

-- The first of the preferences that is offered, or else PCMU.
abbrev pub first_common : List AudioCodec → List AudioCodec → AudioCodec
first_common codecs [] = pcmu
first_common codecs (pref ∷ prefs) =
    let rest = first_common codecs prefs in if any (same_codec pref) codecs then pref else rest

-- A line that has its first character elsewhere is not the media line.
abbrev not_media : String → Bool
not_media String.[] = false
not_media (String.◌∷◌ c s) = not (is_blank (code c)) && not (code c == b'm')

pub offered_in-other :
    (l rest : String)
    → is_line l ≡ true
    → not_media l ≡ true
    → offered_in (lines (push_line l rest)) ≡ offered_in (lines rest)
offered_in-other String.[] rest h o = absurd (ground arith)
offered_in-other (String.◌∷◌ c l) rest h o =
    let b : is_blank (code c) ≡ false = ground arith in
    let m : (b'm' == code c) ≡ false = ground arith in
    let t : trim (concat (String.◌∷◌ c l) "\r") ≡ String.◌∷◌ c (trim_end (concat l "\r")) =
      rw (cons-append c l "\r", b, trim_end-solid c (concat l "\r") b) refl in
    rw (lines-crlf (String.◌∷◌ c l) rest h, t, strip_prefix, m) refl

parse_u8-payload_type :
    (c : AudioCodec) → parse_u8 (decimal 5 (payload_type c)) ≡ some (payload_type c)
unfolding decimal
parse_u8-payload_type AudioCodec.pcmu = refl
parse_u8-payload_type AudioCodec.pcma = refl
parse_u8-payload_type AudioCodec.opus = refl
parse_u8-payload_type AudioCodec.g729 = refl

parsed_types-tail :
    (codecs : List AudioCodec)
    → parsed_types (split_whitespace (concat (types_tail codecs) "\r"))
      ≡ map payload_type codecs ++ 101 ∷ []
parsed_types-tail [] = refl
parsed_types-tail (c ∷ cs) =
    let pt = decimal 5 (payload_type c) in
    rw
      (
        offered_types-tail cs,
        append_assoc pt (concat " " (types_tail cs)) "\r",
        append_assoc " " (types_tail cs) "\r",
        split_whitespace-word pt (concat (types_tail cs) "\r") (payload_type-is_word c),
        parsed_types,
        parse_u8-payload_type c,
        parsed_types-tail cs,
      )
      refl

media_words :
    (port : ℕ) (profile : String) (codecs : List AudioCodec)
    → port < 65536
    → is_word profile ≡ true
    → split_whitespace (concat (media_line port profile (offered_types codecs)) "\r")
      ≡ "m=audio" ∷ decimal 5 port ∷ profile ∷ split_whitespace (concat (types_tail codecs) "\r")
media_words port profile codecs h w =
    let tail = types_tail codecs in
    let end = concat tail "\r" in
    let ported = concat (decimal 5 port) (concat " " (concat profile (concat " " end))) in
    rw
      (
        offered_types-tail codecs,
        append_assoc "m=audio "
            (concat (decimal 5 port) (concat " " (concat profile (concat " " tail)))) "\r",
        append_assoc (decimal 5 port) (concat " " (concat profile (concat " " tail))) "\r",
        append_assoc " " (concat profile (concat " " tail)) "\r",
        append_assoc profile (concat " " tail) "\r",
        append_assoc " " tail "\r",
        append_assoc "m=audio" " " ported,
        split_whitespace-word "m=audio" ported refl,
        split_whitespace-word (decimal 5 port) (concat profile (concat " " end))
            (decimal-is_word port h),
        split_whitespace-word profile end w,
      )
      refl

pub offered_in-media :
    (port : ℕ) (profile : String) (codecs : List AudioCodec) (rest : String)
    → port < 65536
    → is_word profile ≡ true
    → offered_in (lines (push_line (media_line port profile (offered_types codecs)) rest))
      ≡ map payload_type codecs ++ 101 ∷ []
offered_in-media port profile codecs rest h w =
    let line = media_line port profile (offered_types codecs) in
    let found : is_some (strip_prefix "m=audio" line) ≡ true =
      rw
        (
          append_assoc "m=audio" " "
              (concat (decimal 5 port) (concat " " (concat profile (offered_types codecs)))),
          strip_prefix-concat "m=audio" (
              concat " "
                (concat (decimal 5 port) (concat " " (concat profile (offered_types codecs))))),
        )
        refl in
    rw
      (
        lines-crlf line rest (media_line-is_line port profile codecs h w),
        offered_in,
        trim-media_line port profile codecs h w,
        found,
        media_words port profile codecs h w,
        parsed_types-tail codecs,
      )
      refl
