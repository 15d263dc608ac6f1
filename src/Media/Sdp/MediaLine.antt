-- ===== src/Media/Sdp/MediaLine.antt =====
-- About src/media.rs: the media line of our own offers and answers, and its words.
use Prim.Native.String.{String}
use text.Mathlib.TextLemmas.{append_assoc, cons-append}
use aria_mobile_core.Base.{
  ℕ, ◌<◌, ◌≡◌, refl, ltb, true, codes, trim, concat, decimal, all, length, List, [], ◌∷◌, arith,
}
use aria_mobile_core.Types.{AudioCodec, payload_type}
use aria_mobile_core.Media.Sdp.{split_whitespace, is_digit}
use aria_mobile_core.Media.Sdp.Decimal.{decimal-IsNumeral, decimal-length}
use aria_mobile_core.Media.Sdp.Words.{
  solid, is_word, is_line, is_line-concat, is_word-is_line, IsTrimmed, concat-IsTrimmed, trim-line,
  split_whitespace-word,
}
use aria_mobile_core.Media.Sdp.Build.{offered_types, media_line}

digits-solid : (l : List ℕ) → all is_digit l ≡ true → all solid l ≡ true
digits-solid [] h = refl
digits-solid (c ∷ l) h = ground (arith, digits-solid l)

word_of :
    (s : String) → ltb 0 (length (codes s)) ≡ true → all solid (codes s) ≡ true → is_word s ≡ true
word_of String.[] n h = absurd (ground arith)
word_of (String.◌∷◌ c s) n h = h

pub decimal-is_word : (port : ℕ) → port < 65536 → is_word (decimal 5 port) ≡ true
decimal-is_word port h =
    let (ds, _) = decimal-IsNumeral 5 port (omega (arith, h)) in
    word_of (decimal 5 port) (decimal-length 4 port) (digits-solid (codes (decimal 5 port)) ds)

pub payload_type-is_word : (c : AudioCodec) → is_word (decimal 5 (payload_type c)) ≡ true
payload_type-is_word c = decimal-is_word (payload_type c) (small c)
  where
    small : (c : AudioCodec) → payload_type c < 65536
    small AudioCodec.pcmu = omega arith
    small AudioCodec.pcma = omega arith
    small AudioCodec.opus = omega arith
    small AudioCodec.g729 = omega arith

word-is_line : (w : String) → is_word w ≡ true → is_line w ≡ true
word-is_line w h = is_word-is_line w (ground arith)

-- What follows the first blank of the payload types.
abbrev pub types_tail : List AudioCodec → String
types_tail [] = "101"
types_tail (c ∷ cs) = concat (decimal 5 (payload_type c)) (offered_types cs)

pub offered_types-tail :
    (codecs : List AudioCodec) → offered_types codecs ≡ concat " " (types_tail codecs)
offered_types-tail [] = refl
offered_types-tail (c ∷ cs) = refl

offered_types-is_line : (codecs : List AudioCodec) → is_line (offered_types codecs) ≡ true
offered_types-is_line [] = refl
offered_types-is_line (c ∷ cs) =
    let pt = decimal 5 (payload_type c) in
    is_line-concat " " (concat pt (offered_types cs)) refl (
      is_line-concat pt (offered_types cs) (word-is_line pt (payload_type-is_word c))
        (offered_types-is_line cs))

offered_types-IsTrimmed : (codecs : List AudioCodec) → IsTrimmed (offered_types codecs)
offered_types-IsTrimmed [] = (refl, refl)
offered_types-IsTrimmed (c ∷ cs) =
    concat-IsTrimmed " " (concat (decimal 5 (payload_type c)) (offered_types cs)) (
      concat-IsTrimmed (decimal 5 (payload_type c)) (offered_types cs) (offered_types-IsTrimmed cs))

module _ (port : ℕ) (profile : String) (codecs : List AudioCodec) (h : port < 65536)
    (w : is_word profile ≡ true) where
  abbrev types : String
  types = offered_types codecs

  pub media_line-is_line : is_line (media_line port profile (offered_types codecs)) ≡ true
  media_line-is_line =
      is_line-concat "m=audio " (concat (decimal 5 port) (concat " " (concat profile types))) refl (
        is_line-concat (decimal 5 port) (concat " " (concat profile types))
          (word-is_line (decimal 5 port) (decimal-is_word port h))
          (is_line-concat " " (concat profile types) refl
            (is_line-concat profile types (word-is_line profile w) (offered_types-is_line codecs))))

  pub trim-media_line :
      trim (concat (media_line port profile (offered_types codecs)) "\r")
      ≡ media_line port profile (offered_types codecs)
  trim-media_line =
      trim-line (media_line port profile types)
        (rw
          (cons-append "m" "=audio " (concat (decimal 5 port) (concat " " (concat profile types))))
          refl)
        (concat-IsTrimmed "m=audio " (concat (decimal 5 port) (concat " " (concat profile types))) (
          concat-IsTrimmed (decimal 5 port) (concat " " (concat profile types)) (
            concat-IsTrimmed " " (concat profile types)
              (concat-IsTrimmed profile types (offered_types-IsTrimmed codecs)))))

  pub split_whitespace-media_line :
      split_whitespace (media_line port profile (offered_types codecs))
      ≡ "m=audio" ∷ decimal 5 port ∷ profile ∷ split_whitespace (types_tail codecs)
  split_whitespace-media_line =
      let tail = types_tail codecs in
      let ported = concat (decimal 5 port) (concat " " (concat profile (concat " " tail))) in
      rw
        (
          offered_types-tail codecs,
          append_assoc "m=audio" " " ported,
          split_whitespace-word "m=audio" ported refl,
          split_whitespace-word (decimal 5 port) (concat profile (concat " " tail))
              (decimal-is_word port h),
          split_whitespace-word profile tail w,
        )
        refl
