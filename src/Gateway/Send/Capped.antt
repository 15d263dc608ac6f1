-- ===== src/Gateway/Send/Capped.antt =====
-- About src/gateway_client.rs, `read_json_capped`: what is buffered of a body.
use aria_mobile_core.Base.{
  ℕ, ◌+◌, ◌≤◌, ◌≡◌, if◌then◌else◌, ltb, Option, none, some, List, [], ◌∷◌, ◌++◌, map, length,
  length-append, append_assoc, append-nil, arith,
}
use aria_mobile_core.Types.{MobileError, ok, err}
use aria_mobile_core.Gateway.Send.{max_response_bytes, read_chunks}

-- The buffer never passes the cap.
pub read_chunks-length :
    (buf : List ℕ) (cs : List (Option (List ℕ))) {out : List ℕ}
    → length buf ≤ max_response_bytes
    → read_chunks buf cs ≡ ok out
    → length out ≤ max_response_bytes
unfolding read_chunks
read_chunks-length buf [] {out} h e = ground arith
read_chunks-length buf (none ∷ cs) {out} h e = cc
read_chunks-length buf (some c ∷ cs) {out} h e =
    ground (arith, length-append buf c, read_chunks-length (buf ++ c) cs {out = out})

abbrev pub total : List (List ℕ) → ℕ
total [] = 0
total (c ∷ cs) = length c + total cs

abbrev pub joined : List (List ℕ) → List ℕ
joined [] = []
joined (c ∷ cs) = c ++ joined cs

-- A body that arrives whole is buffered whole, in order, behind what a buffer within the cap
-- holds, if the length is within the cap, however the body is cut into chunks; else it is refused.
pub read_chunks-joined :
    (buf : List ℕ) (cs : List (List ℕ))
    → length buf ≤ max_response_bytes
    → read_chunks buf (map some cs) ≡ (
        if ltb max_response_bytes (length buf + total cs)
        then err MobileError.gateway_error
        else ok (buf ++ joined cs))
unfolding read_chunks
read_chunks-joined buf [] h = ground (arith, append-nil buf)
read_chunks-joined buf (c ∷ cs) h =
    ground
      (arith, length-append buf c, append_assoc buf c (joined cs), read_chunks-joined (buf ++ c) cs)
