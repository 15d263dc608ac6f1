-- ===== src/Gateway.antt =====
-- src/gateway_client.rs: which gateway instance a request goes to, and what its answer means.
pub mod Routes
pub mod Url
pub mod Send
pub mod Status
pub mod Requests
pub mod Client
pub mod Resolve
use aria_mobile_core.Base.{ℕ, ◌≡◌, refl, String, Option, none, some, List, [], ◌∷◌, head?}
use Url.{enforce_https}
use Routes.{Route}

pub record GatewayClient : Type 0 where
  pub base_url : String
  pub http : ℕ
  pub resolved_targets : List Route

-- `http` stands for the client that the HTTP library builds.
unfoldable pub new_client : String → ℕ → GatewayClient
new_client base_url http = record {
  base_url = enforce_https base_url;
  http = http;
  resolved_targets = [];
}

unfoldable pub primary_route : GatewayClient → Route
primary_route g = elim g.resolved_targets [
  | [] ↦ record { url = g.base_url; client = g.http }
  | r ∷ rs ↦ r
]

unfoldable pub routes : GatewayClient → List Route
unfolding primary_route
routes g = elim g.resolved_targets [ [] ↦ primary_route g ∷ [] | r ∷ rs ↦ r ∷ rs ]
