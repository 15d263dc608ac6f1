-- ===== src/Media/Sdp/Words.antt =====
-- About src/media.rs, `parse_sdp_remote`: the lines of a text and the words of a line.
use Prim.Native.String.{String}
use Prim.Native.Char.{Char, code}
use text.Mathlib.TextLemmas.{cons-append, nil-append, append-nil}
use aria_mobile_core.Base.{
  ℕ, ◌≡◌, refl, sym, ap, ◌∙◌, ◌==◌, Bool, true, false, not, ◌&&◌, codes, is_blank, is_empty,
  trim_end, trim, concat, all, some, ◌∷◌, arith,
}
use aria_mobile_core.Gateway.Url.{strip_prefix}
use aria_mobile_core.Media.Sdp.{lines, split_blanks, split_whitespace}
use aria_mobile_core.Media.Sdp.Decimal.{codes-concat, all-append}

abbrev pub solid : ℕ → Bool
solid c = not (is_blank c)

-- Characters, and no blanks among them.
abbrev pub is_word : String → Bool
is_word s = not (is_empty s) && all solid (codes s)

abbrev pub in_line : ℕ → Bool
in_line c = not (c == 10)

abbrev pub is_line : String → Bool
is_line s = all in_line (codes s)

abbrev pub crlf : String → String → String
crlf line rest = concat line (concat "\r\n" rest)

pub strip_prefix-concat : (p s : String) → strip_prefix p (concat p s) ≡ some s
strip_prefix-concat String.[] s = ap some (nil-append s)
strip_prefix-concat (String.◌∷◌ c p) s =
    rw (cons-append c p s) (ground (arith, strip_prefix-concat p s))

pub lines-crlf :
    (l rest : String) → is_line l ≡ true → lines (crlf l rest) ≡ concat l "\r" ∷ lines rest
lines-crlf String.[] rest h =
    rw
      (
        nil-append (concat "\r\n" rest),
        cons-append "\r" "\n" rest,
        cons-append "\n" "" rest,
        nil-append rest,
      )
      refl
lines-crlf (String.◌∷◌ c l) rest h =
    let plain : (code c == 10) ≡ false = ground arith in
    let more : is_line l ≡ true = ground arith in
    rw
      (
        cons-append c l (concat "\r\n" rest),
        plain,
        lines-crlf l rest more,
        cons-append c "" (concat l "\r"),
        nil-append (concat l "\r"),
        cons-append c l "\r",
      )
      refl

pub is_line-concat :
    (s t : String) → is_line s ≡ true → is_line t ≡ true → is_line (concat s t) ≡ true
is_line-concat s t hs ht = rw (codes-concat s t) (all-append in_line (codes s) (codes t) hs ht)

pub is_word-is_line : (w : String) → all solid (codes w) ≡ true → is_line w ≡ true
is_word-is_line String.[] h = refl
is_word-is_line (String.◌∷◌ c w) h =
    let next = is_word-is_line w (ground arith) in ground (arith, next)

-- Blanks behind a text go, if it does not end with one.
pub trim_end-word :
    (w blanks : String) → is_word w ≡ true → trim_end blanks ≡ "" → trim_end (concat w blanks) ≡ w
trim_end-word String.[] blanks h b = absurd (ground arith)
trim_end-word (String.◌∷◌ c String.[]) blanks h b =
    let s : is_blank (code c) ≡ false = ground arith in
    rw (cons-append c "" blanks, nil-append blanks, b, s) refl
trim_end-word (String.◌∷◌ c (String.◌∷◌ d w)) blanks h b =
    let more : is_word (String.◌∷◌ d w) ≡ true = ground arith in
    rw (cons-append c (String.◌∷◌ d w) blanks, trim_end-word (String.◌∷◌ d w) blanks more b) refl

-- A text that is what is left of it as a line of its own.
abbrev pub IsTrimmed : String → Type 0
IsTrimmed s = (trim_end (concat s "\r") ≡ s) × (is_empty s ≡ false)

pub is_word-IsTrimmed : (w : String) → is_word w ≡ true → IsTrimmed w
is_word-IsTrimmed w h = (trim_end-word w "\r" h refl, ground arith)

pub concat-IsTrimmed : (p s : String) → IsTrimmed s → IsTrimmed (concat p s)
concat-IsTrimmed String.[] s h = rw (nil-append s) h
concat-IsTrimmed (String.◌∷◌ c p) s h =
    let (t, e) = concat-IsTrimmed p s h in
    rw (cons-append c p s, cons-append c (concat p s) "\r", t, e) (refl, refl)

abbrev pub starts_solid : String → Bool
starts_solid String.[] = false
starts_solid (String.◌∷◌ c s) = solid (code c)

pub trim-line : (s : String) → starts_solid s ≡ true → IsTrimmed s → trim (concat s "\r") ≡ s
trim-line String.[] h t = absurd (ground arith)
trim-line (String.◌∷◌ c s) h (t, e) =
    let b : is_blank (code c) ≡ false = ground arith in
    rw (cons-append c s "\r", b) (rw (cons-append c s "\r") at t)

pub trim_end-solid :
    (c : Char) (s : String)
    → is_blank (code c) ≡ false
    → trim_end (String.◌∷◌ c s) ≡ String.◌∷◌ c (trim_end s)
trim_end-solid c s b = by_end (trim_end s) refl
  where
    by_end : (t : String) → trim_end s ≡ t → trim_end (String.◌∷◌ c s) ≡ String.◌∷◌ c t
    by_end String.[] e = rw (e, b) refl
    by_end (String.◌∷◌ d t) e = rw e refl

pub trim-word : (w : String) → is_word w ≡ true → trim w ≡ w
trim-word String.[] h = refl
trim-word (String.◌∷◌ c w) h =
    let b : is_blank (code c) ≡ false = ground arith in
    rw b
      (ap trim_end (sym (append-nil (String.◌∷◌ c w))) ∙ trim_end-word (String.◌∷◌ c w) "" h refl)

split_blanks-word :
    (w rest : String)
    → all solid (codes w) ≡ true
    → split_blanks (concat w (concat " " rest)) ≡ w ∷ split_blanks rest
split_blanks-word String.[] rest h =
    rw (nil-append (concat " " rest), cons-append " " "" rest, nil-append rest) refl
split_blanks-word (String.◌∷◌ c w) rest h =
    let b : is_blank (code c) ≡ false = ground arith in
    let more : all solid (codes w) ≡ true = ground arith in
    rw
      (
        cons-append c w (concat " " rest),
        b,
        split_blanks-word w rest more,
        cons-append c "" w,
        nil-append w,
      )
      refl

pub split_whitespace-word :
    (w rest : String)
    → is_word w ≡ true
    → split_whitespace (concat w (concat " " rest)) ≡ w ∷ split_whitespace rest
split_whitespace-word w rest h =
    let full : is_empty w ≡ false = ground arith in
    let s : all solid (codes w) ≡ true = ground arith in rw (split_blanks-word w rest s, full) refl
