-- ===== src/Media/Sdp.antt =====
-- src/media.rs, reading a peer's SDP: `parse_sdp_remote`.
pub mod Decimal
pub mod Words
pub mod Build
pub mod MediaLine
pub mod Reading
pub mod RoundTrip
pub mod Negotiate
pub mod Agreement
use Prim.Native.Char.{code}
use Prim.Native.String.{String}
use aria_mobile_core.Base.{
  ℕ, ◌+◌, ◌*◌, ◌-◌, ◌==◌, leb, if◌then◌else◌, Bool, ◌&&◌, codes, is_blank, is_empty, all, str_eq,
  trim, concat, decimal, Option, none, some, is_some, List, [], ◌∷◌,
}
use aria_mobile_core.Types.{AudioCodec, opus, pcmu, pcma, g729}
use aria_mobile_core.Gateway.Url.{strip_prefix}
use aria_mobile_core.Media.{SocketAddr}

abbrev pub onto_first : String → List String → List String
onto_first c [] = c ∷ []
onto_first c (s ∷ l) = concat c s ∷ l

-- `str::lines`; the `\r` of a line is left for `trim`.
abbrev pub lines : String → List String
lines String.[] = String.[] ∷ []
lines (String.◌∷◌ c s) =
    let rest = lines s in
    if code c == 10 then String.[] ∷ rest else onto_first (String.◌∷◌ c String.[]) rest

abbrev pub non_empty : List String → List String
non_empty [] = []
non_empty (s ∷ l) = if is_empty s then non_empty l else s ∷ non_empty l

abbrev pub split_blanks : String → List String
split_blanks String.[] = String.[] ∷ []
split_blanks (String.◌∷◌ c s) =
    let rest = split_blanks s in
    if is_blank (code c) then String.[] ∷ rest else onto_first (String.◌∷◌ c String.[]) rest

-- `str::split_whitespace`.
abbrev pub split_whitespace : String → List String
split_whitespace s = non_empty (split_blanks s)

abbrev pub is_digit : ℕ → Bool
is_digit c = leb b'0' c && leb c b'9'

abbrev pub digits_value : ℕ → List ℕ → ℕ
digits_value acc [] = acc
digits_value acc (c ∷ l) = digits_value (acc * 10 + (c - b'0')) l

abbrev pub unsigned_u16 : List ℕ → Option ℕ
unsigned_u16 [] = none
unsigned_u16 (c ∷ l) =
    if all is_digit (c ∷ l) && leb (digits_value 0 (c ∷ l)) 65535
    then some (digits_value 0 (c ∷ l))
    else none

-- `str::parse::<u16>`: a `+` may come first.
abbrev pub parse_u16 : List ℕ → Option ℕ
parse_u16 [] = none
parse_u16 (c ∷ l) = if c == b'+' then unsigned_u16 l else unsigned_u16 (c ∷ l)

abbrev pub codec_of : String → Option AudioCodec
codec_of pt =
    if str_eq pt "0"
    then some pcmu
    else if str_eq pt "8"
    then some pcma
    else if str_eq pt "18"
    then some g729
    else if str_eq pt "111"
    then some opus
    else none

-- What the lines so far say: the address, the port and the codec.
pub record SdpRemote : Type 0 where
  pub ip : Option String
  pub port : Option ℕ
  pub codec : Option AudioCodec

abbrev pub audio_line : SdpRemote → List String → SdpRemote
audio_line r (m ∷ port ∷ proto ∷ pt ∷ more) = record r {
  port = parse_u16 (codes port);
  codec = codec_of pt;
}
audio_line r _ = r

abbrev pub sdp_line : SdpRemote → String → SdpRemote
sdp_line r line = elim (strip_prefix "c=IN IP4 " line) [
  | some ip ↦ record r { ip = some (trim ip) }
  | none ↦
      if is_some (strip_prefix "m=audio " line) then audio_line r (split_whitespace line) else r
]

abbrev pub sdp_lines : SdpRemote → List String → SdpRemote
sdp_lines r [] = r
sdp_lines r (line ∷ more) = sdp_lines (sdp_line r (trim line)) more

abbrev pub remote_of : (String → Option SocketAddr) → SdpRemote → Option (SocketAddr × AudioCodec)
remote_of parse_addr r = elim r.ip [
  | none ↦ none
  | some ip ↦ elim r.port [
    | none ↦ none
    | some port ↦ elim r.codec [
      | none ↦ none
      | some codec ↦ elim (parse_addr (concat ip (concat ":" (decimal 5 port)))) [
        | none ↦ none
        | some addr ↦ some (addr, codec)
      ]
    ]
  ]
]

-- `parse_addr` is the standard library's parser of a `SocketAddr`.
unfoldable pub parse_sdp_remote :
    (String → Option SocketAddr) → String → Option (SocketAddr × AudioCodec)
parse_sdp_remote parse_addr sdp =
    remote_of parse_addr (sdp_lines (record { ip = none; port = none; codec = none }) (lines sdp))
