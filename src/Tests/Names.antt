-- ===== src/Tests/Names.antt =====
-- The theorems on DNS and on the gateway's routes, at concrete inputs.
use aria_mobile_core.Base.{ℕ, ◌+◌, ◌≡◌, refl, true, false, String, none, some, List, [], ◌∷◌, arith}
use aria_mobile_core.Base.Dict.{get, insert}
use aria_mobile_core.Gateway.{GatewayClient}
use aria_mobile_core.Gateway.Resolve.{UrlLib, resolve_gateway}
use aria_mobile_core.Gateway.Resolve.Domain.{IsResolution, resolve_gateway-IsResolution}
use aria_mobile_core.Dns.{
  SrvTarget, SrvResolver, SrvRecord, tls, addresses, Network, found, new_resolver, lookup_srv,
  cache_targets, resolve_sip_server,
}
use aria_mobile_core.Dns.Kept.{resolve_sip_server_again}

abbrev srv : ℕ → ℕ → String → SrvRecord
srv priority weight target = record {
  priority = priority;
  weight = weight;
  port = 5060;
  target = target;
}

abbrev net_at : ℕ → Network
net_at now = record {
  srv_lookup = λ name. some (srv 20 0 "b.example.com." ∷ srv 10 5 "a.example.com." ∷ []);
  in_time = true;
  lookup_ip = λ host. some (host ∷ []);
  lookup_host = λ name. addresses [];
  now = now;
  later = now + 10;
}

abbrev srv_target : ℕ → ℕ → String → SrvTarget
srv_target priority weight host = record {
  host = host;
  port = 5060;
  priority = priority;
  weight = weight;
  addr = record { ip = host; port = 5060 };
}

abbrev both : List SrvTarget
both = srv_target 10 5 "a.example.com" ∷ srv_target 20 0 "b.example.com" ∷ []

abbrev after_first : SrvResolver
after_first = record {
  cache = ("_sips._tcp.example.com", record { targets = both; expires = 301010 }) ∷ [];
}

first_found :
    resolve_sip_server new_resolver (net_at 1000) "example.com" tls 5061 ≡ (after_first, found both)
unfolding resolve_sip_server new_resolver lookup_srv cache_targets get insert
first_found = refl

-- The second time the fallback port is another one.
resolve_sip_server_again_example :
    resolve_sip_server after_first (net_at 100000) "example.com" tls 6061
    ≡ (after_first, found both)
unfolding new_resolver get
resolve_sip_server_again_example =
    resolve_sip_server_again new_resolver after_first (net_at 1000) (net_at 100000) "example.com"
      tls 5061 6061 both refl first_found (omega arith)

abbrev url_lib : UrlLib
url_lib = record {
  parse = λ s.
      some (record { scheme = "https"; host_str = some "gw.example.com"; port = none; path = "/" });
  is_ip_addr = λ host. false;
  pin = λ domain addr. addr.port;
}

abbrev gateway : GatewayClient
gateway = record { base_url = "https://gw.example.com"; http = 0; resolved_targets = [] }

resolve_gateway-IsResolution_example :
    IsResolution url_lib gateway new_resolver
      (net_at 0)
      (resolve_gateway url_lib gateway new_resolver (net_at 0))
unfolding new_resolver
resolve_gateway-IsResolution_example =
    resolve_gateway-IsResolution url_lib gateway new_resolver (net_at 0) tt
