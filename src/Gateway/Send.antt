-- ===== src/Gateway/Send.antt =====
-- `send_on`: failing over from one route to the next, and `read_json_capped`.
pub mod Failover
pub mod Capped
use aria_mobile_core.Base.{
  ℕ, ◌+◌, ◌*◌, ltb, if◌then◌else◌, Bool, Option, none, some, List, [], ◌∷◌, ◌++◌, length,
}
use aria_mobile_core.Types.{MobileError, Result, ok, err, from_http_error}
use aria_mobile_core.Gateway.Routes.{Route}

-- How one HTTP request ends: a response, a failure to connect, or another failure. The flag is
-- `is_timeout()` of the error.
pub data Sent {ℓ} (R : Type ℓ) : Type ℓ where
  response : R → Sent R
  not_connected : Bool → Sent R
  broken : Bool → Sent R

module _ {ℓ} {R : Type ℓ} where
  abbrev pub connect_error : MobileError → Sent R → MobileError
  connect_error last_err (not_connected t) = from_http_error t
  connect_error last_err _ = last_err

  -- The result, and the routes on which a request was sent, in order.
  unfoldable pub send_from :
      MobileError → List Route → (Route → Sent R) → Result (R × Route) × List Route
  send_from last_err [] outcome = (err last_err, [])
  send_from last_err (route ∷ rest) outcome =
      let next = send_from (connect_error last_err (outcome route)) rest outcome in
      elim (outcome route) [
        | response r ↦ (ok (r, route), route ∷ [])
        | not_connected t ↦ (next.0, route ∷ next.1)
        | broken t ↦ (err (from_http_error t), route ∷ [])
      ]

  unfoldable pub send_on : List Route → (Route → Sent R) → Result (R × Route) × List Route
  unfolding send_from
  send_on routes outcome = send_from MobileError.network_error routes outcome

abbrev pub max_response_bytes : ℕ
max_response_bytes = 4 * 1024 * 1024

-- A body as it arrives: each chunk's bytes, or a transport error.
abbrev pub Chunks : Type 0
Chunks = List (Option (List ℕ))

-- The buffer when the stream has ended, or the error that stopped it.
unfoldable pub read_chunks : List ℕ → Chunks → Result (List ℕ)
read_chunks buf [] = ok buf
read_chunks buf (none ∷ chunks) = err MobileError.network_error
read_chunks buf (some chunk ∷ chunks) =
    let rest = read_chunks (buf ++ chunk) chunks in
    if ltb max_response_bytes (length buf + length chunk)
    then err MobileError.gateway_error
    else rest

abbrev too_long : Option ℕ → Bool
too_long none = Bool.false
too_long (some len) = ltb max_response_bytes len

pub record Response : Type 0 where
  pub status : ℕ
  pub content_length : Option ℕ
  pub body : Chunks

-- `decode` is serde_json on the target type.
unfoldable pub read_json_capped {ℓ} : {T : Type ℓ} → (List ℕ → Option T) → Response → Result T
unfolding read_chunks
read_json_capped decode resp =
    if too_long resp.content_length
    then err MobileError.gateway_error
    else elim (read_chunks [] resp.body) [
      | err x ↦ err x
      | ok buf ↦ elim (decode buf) [ none ↦ err MobileError.gateway_error | some t ↦ ok t ]
    ]
