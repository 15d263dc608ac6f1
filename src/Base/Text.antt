-- ===== src/Base/Text.antt =====
-- Text: whole texts are native strings; code that walks characters works on code points.
use Prim.Native.Nat.{ℕ, zero, suc, ◌/◌, ◌%◌}
use Prim.Native.Char.{code}
use Prim.Native.String.{String, ◌++◌ as ◌++s◌}
use mathlib.Core.Bool.{Bool, true, false, ◌&&◌, ◌||◌}
use mathlib.Core.List.{List, [], ◌∷◌}
use aria_mobile_core.Base.Tests.{◌==◌, ltb, if◌then◌else◌}
use text.Mathlib.Text.{◌==◌ as ◌=s=◌}

abbrev pub str_eq : String → String → Bool
str_eq s t = s =s= t

-- `format!("{a}{b}")`.
abbrev pub concat : String → String → String
concat s t = s ++s t

abbrev pub codes : String → List ℕ
codes String.[] = []
codes (String.◌∷◌ c s) = code c ∷ codes s

-- `String::is_empty`.
abbrev pub is_empty : String → Bool
is_empty String.[] = true
is_empty (String.◌∷◌ c s) = false

-- `char::is_whitespace`: the code points of the Unicode property White_Space.
abbrev pub is_blank : ℕ → Bool
is_blank c =
    (ltb 8 c && ltb c 14)
    || ((c == 32 || (c == 133 || (c == 160 || c == 5760)))
        || ((ltb 8191 c && ltb c 8203)
            || (c == 8232 || (c == 8233 || (c == 8239 || (c == 8287 || c == 12288))))))

abbrev pub trim_start : String → String
trim_start String.[] = String.[]
trim_start (String.◌∷◌ c s) = if is_blank (code c) then trim_start s else String.◌∷◌ c s

-- Blanks are kept back until something follows them.
abbrev pub trim_end : String → String
trim_end String.[] = String.[]
trim_end (String.◌∷◌ c s) =
    let rest = trim_end s in
    if is_empty rest
    then (if is_blank (code c) then String.[] else String.◌∷◌ c String.[])
    else String.◌∷◌ c rest

abbrev pub trim : String → String
trim s = trim_end (trim_start s)

abbrev pub digit : ℕ → String
digit d =
    if d == 0
    then "0"
    else if d == 1
    then "1"
    else if d == 2
    then "2"
    else if d == 3
    then "3"
    else if d == 4
    then "4"
    else if d == 5
    then "5"
    else if d == 6
    then "6"
    else if d == 7
    then "7"
    else if d == 8
    then "8"
    else "9"

-- Decimal digits; the fuel is the number of digits at most, five for a `u16`.
unfoldable pub decimal : ℕ → ℕ → String
decimal zero n = ""
decimal (suc fuel) n =
    let front = decimal fuel (n / 10) in concat (if ltb n 10 then "" else front) (digit (n % 10))
