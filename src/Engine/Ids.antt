-- ===== src/Engine/Ids.antt =====
-- src/lib.rs, `OutgoingCalls` and the outgoing call ids: the ids that were used, and the `client_ref`
-- in an id.
pub mod Used
use Prim.Native.Char.{code}
use aria_mobile_core.Base.{
  ℕ, suc, ltb, leb, ◌==◌, if◌then◌else◌, Bool, true, false, ◌&&◌, ◌||◌, String, str_eq, codes, all,
  Option, none, some, List, [], ◌∷◌, ◌++◌, length, drop, concat,
}
use aria_mobile_core.Gateway.Url.{strip_prefix}
use aria_mobile_core.Engine.State.{OutgoingCalls, used_outgoing_ids}

-- `used` gives a place to write to; reading and writing it are two functions.
unfoldable pub used : String → List (String × Bool) → Option Bool
used call_id [] = none
used call_id ((id, precancelled) ∷ l) =
    if str_eq id call_id then some precancelled else used call_id l

-- `std::mem::take` on the first entry of an id.
unfoldable pub clear_used : String → List (String × Bool) → List (String × Bool)
clear_used call_id [] = []
clear_used call_id ((id, precancelled) ∷ l) =
    if str_eq id call_id then (id, false) ∷ l else (id, precancelled) ∷ clear_used call_id l

unfoldable pub mark_used : OutgoingCalls → String → Bool → OutgoingCalls
mark_used o call_id precancelled =
    let l : List (String × Bool) = o.used ++ (call_id, precancelled) ∷ [] in
    record o { used = if ltb used_outgoing_ids (length l) then drop 1 l else l }

-- A character of a `client_ref`: `[A-Za-z0-9_-]`.
abbrev pub is_ref_char : ℕ → Bool
is_ref_char c =
    (leb b'a' c && leb c b'z')
    || ((leb b'A' c && leb c b'Z') || ((leb b'0' c && leb c b'9') || (c == b'_' || c == b'-')))

abbrev pub is_client_ref : String → Bool
is_client_ref r =
    (leb 1 (length (codes r)) && leb (length (codes r)) 64) && all is_ref_char (codes r)

unfoldable pub outgoing_client_ref : String → Option String
outgoing_client_ref call_id = elim (strip_prefix "outgoing-" call_id) [
  | none ↦ none
  | some r ↦ if is_client_ref r then some r else none
]

-- `uuid` stands for the text of a fresh random UUID without dashes.
unfoldable pub new_outgoing_call_id : String → String
new_outgoing_call_id uuid = concat "outgoing-" uuid
