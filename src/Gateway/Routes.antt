-- ===== src/Gateway/Routes.antt =====
-- A gateway instance. An HTTP client is a handle of a third-party library, of which only the identity
-- matters: a number.
use Prim.Native.Char.{code}
use aria_mobile_core.Base.{ℕ, ◌==◌, if◌then◌else◌, String, concat, is_empty, ◌&&◌}

pub record Route : Type 0 where
  pub url : String
  pub client : ℕ

-- `trim_end_matches` of one character.
abbrev pub trim_end_char : ℕ → String → String
trim_end_char c String.[] = String.[]
trim_end_char c (String.◌∷◌ d s) =
    let rest = trim_end_char c s in
    if is_empty rest && (code d == c) then String.[] else String.◌∷◌ d rest

unfoldable pub request_url : Route → String → String
request_url r path = concat (trim_end_char b'/' r.url) path
