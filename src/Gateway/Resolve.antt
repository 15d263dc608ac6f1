-- ===== src/Gateway/Resolve.antt =====
-- src/gateway_client.rs: `resolve_gateway`, which fills the failover routes from the SRV records.
pub mod Domain
use Prim.Native.String.{String}
use aria_mobile_core.Base.{
  ℕ, ◌==◌, if◌then◌else◌, Bool, ◌&&◌, ◌||◌, not, str_eq, concat, decimal, Option, none, some, List,
  [], ◌∷◌, map,
}
use aria_mobile_core.Gateway.{GatewayClient}
use aria_mobile_core.Gateway.Routes.{Route, trim_end_char}
use aria_mobile_core.Media.{SocketAddr}
use aria_mobile_core.Dns.{
  SrvTarget, SrvResolver, SipTransport, tcp, tls, Network, Resolved, found, unresolved,
  resolve_sip_server,
}

-- What is read of a `reqwest::Url`.
pub record Url : Type 0 where
  pub scheme : String
  pub host_str : Option String
  pub port : Option ℕ
  pub path : String

-- The HTTP library's parser of URLs and its pinned clients (`pin`), and whether the standard library
-- reads a host as an IP address.
pub record UrlLib : Type 0 where
  pub parse : String → Option Url
  pub is_ip_addr : String → Bool
  pub pin : String → SocketAddr → ℕ

unfoldable pub build_target_url : String → String → ℕ → String → String
build_target_url scheme domain port path_prefix =
    let is_tls = str_eq scheme "https" in
    let host_port =
      if (is_tls && (port == 443)) || (not is_tls && (port == 80))
      then domain
      else concat domain (concat ":" (decimal 5 port)) in
    concat scheme (concat "://" (concat host_port path_prefix))

abbrev pub build_pinned_client : UrlLib → String → SocketAddr → ℕ
build_pinned_client lib domain addr = lib.pin domain addr

abbrev pub route_of : UrlLib → Url → String → SrvTarget → Route
route_of lib url domain t = record {
  url = build_target_url url.scheme domain t.port (trim_end_char b'/' url.path);
  client = build_pinned_client lib domain t.addr;
}

abbrev pub port_or : Option ℕ → ℕ → ℕ
port_or none d = d
port_or (some p) d = p

abbrev pub set_routes : UrlLib → GatewayClient → Url → String → Resolved → GatewayClient
set_routes lib g url domain (unresolved e) = g
set_routes lib g url domain (found []) = g
set_routes lib g url domain (found (t ∷ ts)) = record g {
  resolved_targets = map (route_of lib url domain) (t ∷ ts);
}

abbrev pub resolve_domain :
    UrlLib → GatewayClient → SrvResolver → Network → Url → String → GatewayClient × SrvResolver
resolve_domain lib g r net url domain =
    let is_tls = str_eq url.scheme "https" in
    let port = port_or url.port (if is_tls then 443 else 80) in
    let resolved = resolve_sip_server r net domain (if is_tls then tls else tcp) port in
    (set_routes lib g url domain (resolved.1), resolved.0)

abbrev pub resolve_url :
    UrlLib → GatewayClient → SrvResolver → Network → Option Url → GatewayClient × SrvResolver
resolve_url lib g r net none = (g, r)
resolve_url lib g r net (some url) = elim url.host_str [
  | none ↦ (g, r)
  | some domain ↦ if lib.is_ip_addr domain then (g, r) else resolve_domain lib g r net url domain
]

-- The result is `Ok(())` in all cases.
unfoldable pub resolve_gateway :
    UrlLib → GatewayClient → SrvResolver → Network → GatewayClient × SrvResolver
resolve_gateway lib g r net = resolve_url lib g r net (lib.parse g.base_url)
