-- ===== src/Gateway/Url.antt =====
-- src/gateway_client.rs, `enforce_https`, on the characters of native strings.
pub mod Plaintext
use Prim.Native.Char.{code}
use Prim.Native.String.{String}
use aria_mobile_core.Base.{
  ℕ, ◌==◌, if◌then◌else◌, Bool, false, not, ◌||◌, str_eq, concat, Option, none, some,
}

-- The text before the first of a character, and whether it stands there at all.
abbrev pub before_char : ℕ → String → String
before_char c String.[] = String.[]
before_char c (String.◌∷◌ d s) = if code d == c then String.[] else String.◌∷◌ d (before_char c s)

-- What stands behind the last of a character: all of the text, where there is none.
abbrev pub after_last_acc : ℕ → String → String → String
after_last_acc c acc String.[] = acc
after_last_acc c acc (String.◌∷◌ d s) = after_last_acc c (if code d == c then s else acc) s

abbrev pub after_last : ℕ → String → String
after_last c s = after_last_acc c s s

abbrev pub contains_char : ℕ → String → Bool
contains_char c String.[] = false
contains_char c (String.◌∷◌ d s) = (code d == c) || contains_char c s

abbrev pub ends_with : String → String → Bool
ends_with String.[] t = str_eq String.[] t
ends_with (String.◌∷◌ d s) t = str_eq (String.◌∷◌ d s) t || ends_with s t

abbrev pub strip_prefix : String → String → Option String
strip_prefix String.[] s = some s
strip_prefix (String.◌∷◌ c p) String.[] = none
strip_prefix (String.◌∷◌ c p) (String.◌∷◌ d s) = if code c == code d then strip_prefix p s else none

-- The authority of what follows `http://`, its host, and whether it names a user.
abbrev pub authority : String → String
authority rest = before_char b'/' rest

abbrev pub host_of : String → String
host_of rest = before_char b':' (after_last b'@' (authority rest))

abbrev pub is_local : String → Bool
is_local host =
    str_eq host "localhost"
    || (str_eq host "127.0.0.1" || (str_eq host "::1" || ends_with host ".local"))

abbrev pub enforce_https_rest : String → Option String → String
enforce_https_rest base_url none = base_url
enforce_https_rest base_url (some rest) =
    if not (is_local (host_of rest)) || contains_char b'@' (authority rest)
    then concat "https://" rest
    else base_url

unfoldable pub enforce_https : String → String
enforce_https base_url = enforce_https_rest base_url (strip_prefix "http://" base_url)
