-- ===== src/Gateway/Resolve/Domain.antt =====
-- About src/gateway_client.rs, `resolve_gateway`: the routes it leaves.
use Prim.Native.String.{String}
use text.Mathlib.TextLemmas.{append-nil}
use aria_mobile_core.Base.{
  ℕ, ◌≡◌, ◌≢◌, refl, ◌==◌, if◌then◌else◌, ◌⊎◌, inl, inr, str_eq, concat, decimal, Option, none,
  some, true, false, arith, List, [], ◌∷◌, map, Bool-cases, Option-cases,
}
use aria_mobile_core.Gateway.{GatewayClient}
use aria_mobile_core.Gateway.Routes.{Route, trim_end_char}
use aria_mobile_core.Dns.{
  SrvTarget, SrvResolver, tcp, tls, Network, Resolved, found, unresolved, resolve_sip_server,
}
use aria_mobile_core.Dns.Cached.{IsAnswer, IsSound, IsResolved, resolve_sip_server-IsResolved}
use aria_mobile_core.Gateway.Resolve.{
  Url, UrlLib, build_target_url, route_of, port_or, set_routes, resolve_domain, resolve_url,
  resolve_gateway,
}

-- The port of a URL, which leaves out the one of its scheme.
abbrev pub PortText : String → ℕ → String → Type 0
PortText scheme port text =
    ((port ≡ (if str_eq scheme "https" then 443 else 80)) × (text ≡ ""))
    ⊎ ((port ≢ (if str_eq scheme "https" then 443 else 80)) × (text ≡ concat ":" (decimal 5 port)))

-- The URL has the scheme and the path of the base URL, its host name and the target's port, and the
-- client is pinned for that host name to the target's address.
abbrev pub IsRouteTo : UrlLib → Url → String → SrvTarget → Route → Type 0
IsRouteTo lib url domain t r =
    ((port : String) × PortText url.scheme t.port port
      × (r.url
          ≡ concat url.scheme
              (concat "://" (concat (concat domain port) (trim_end_char b'/' url.path)))))
    × (r.client ≡ lib.pin domain t.addr)

-- A route for each target, in the order of the targets.
abbrev pub AreRoutes : UrlLib → Url → String → List SrvTarget → List Route → Type 0
AreRoutes lib url domain [] [] = Unit
AreRoutes lib url domain (t ∷ ts) (r ∷ rs) =
    IsRouteTo lib url domain t r × AreRoutes lib url domain ts rs
AreRoutes lib url domain _ _ = ⊥

build_target_url-domain :
    (scheme domain : String) (port : ℕ) (prefix : String)
    → (text : String) × PortText scheme port text
      × (build_target_url scheme domain port prefix
          ≡ concat scheme (concat "://" (concat (concat domain text) prefix)))
unfolding build_target_url
build_target_url-domain scheme domain port prefix = elim (Bool-cases (str_eq scheme "https")) [
  | inl s ↦ elim (Bool-cases (port == 443)) [
    | inl t ↦ rw (s, t) ("", inl (ground arith, refl), rw (append-nil domain) refl)
    | inr t ↦ rw (s, t) (concat ":" (decimal 5 port), inr (ground arith, refl), refl)
  ]
  | inr s ↦ elim (Bool-cases (port == 80)) [
    | inl t ↦ rw (s, t) ("", inl (ground arith, refl), rw (append-nil domain) refl)
    | inr t ↦ rw (s, t) (concat ":" (decimal 5 port), inr (ground arith, refl), refl)
  ]
]

map-AreRoutes :
    (lib : UrlLib) (url : Url) (domain : String) (ts : List SrvTarget)
    → AreRoutes lib url domain ts (map (route_of lib url domain) ts)
map-AreRoutes lib url domain [] = tt
map-AreRoutes lib url domain (t ∷ ts) = (
  (build_target_url-domain url.scheme domain t.port (trim_end_char b'/' url.path), refl),
  map-AreRoutes lib url domain ts,
)

-- What the resolver gives for the host of a URL: over TLS for `https`, with the port of the URL or the
-- one of its scheme for the fallback.
abbrev pub answer_for : SrvResolver → Network → Url → String → Resolved
answer_for r net url domain =
    let is_tls = str_eq url.scheme "https" in
    (resolve_sip_server r net domain (if is_tls then tls else tcp)
      (port_or url.port (if is_tls then 443 else 80))).1

-- There is nothing to resolve, or nothing was found.
abbrev pub IsUnresolved : UrlLib → GatewayClient → SrvResolver → Network → Type 0
IsUnresolved lib g r net =
    (lib.parse g.base_url ≡ none)
    ⊎ ((url : Url) × (lib.parse g.base_url ≡ some url)
        × ((url.host_str ≡ none)
            ⊎ ((domain : String) × (url.host_str ≡ some domain)
                × ((lib.is_ip_addr domain ≡ true)
                    ⊎ ((e : String) × (answer_for r net url domain ≡ unresolved e))))))

-- The routes are as before, or those of the targets found, in their order.
abbrev pub AreResolved : UrlLib → GatewayClient → SrvResolver → Network → GatewayClient → Type 0
AreResolved lib g r net g' =
    ((g'.resolved_targets ≡ g.resolved_targets) × IsUnresolved lib g r net)
    ⊎ ((url : Url) × (domain : String) × (ts : List SrvTarget) × (lib.parse g.base_url ≡ some url)
        × (url.host_str ≡ some domain)
        × (lib.is_ip_addr domain ≡ false)
        × (answer_for r net url domain ≡ found ts)
        × IsAnswer ts
        × AreRoutes lib url domain ts g'.resolved_targets)

abbrev pub IsResolution :
    UrlLib → GatewayClient → SrvResolver → Network → GatewayClient × SrvResolver → Type 0
IsResolution lib g r net (g', r') =
    (g'.base_url ≡ g.base_url) × (g'.http ≡ g.http) × IsSound r' × AreResolved lib g r net g'

resolve_domain-IsResolution :
    (lib : UrlLib) (g : GatewayClient) (r : SrvResolver) (net : Network) (url : Url)
    (domain : String)
    → IsSound r
    → lib.parse g.base_url ≡ some url
    → url.host_str ≡ some domain
    → lib.is_ip_addr domain ≡ false
    → IsResolution lib g r net (resolve_domain lib g r net url domain)
resolve_domain-IsResolution lib g r net url domain h p d t =
    let is_tls = str_eq url.scheme "https" in
    let transport = if is_tls then tls else tcp in
    let port = port_or url.port (if is_tls then 443 else 80) in
    by_resolved (resolve_sip_server r net domain transport port)
      (resolve_sip_server-IsResolved r net domain transport port h) refl
  where
    by_resolved :
        (q : SrvResolver × Resolved)
        → IsResolved r q
        → answer_for r net url domain ≡ q.1
        → IsResolution lib g r net (set_routes lib g url domain q.1, q.0)
    by_resolved (r', unresolved e) s a =
        (refl, refl, rw s h, inl (refl, inr (url, p, inr (domain, d, inr (e, a)))))
    by_resolved (r', found []) s a = absurd s.1
    by_resolved (r', found (t1 ∷ ts)) s a = (
      refl,
      refl,
      s.0,
      inr (url, domain, t1 ∷ ts, p, d, t, a, s.1, map-AreRoutes lib url domain (t1 ∷ ts)),
    )

-- Resolving the gateway keeps the base URL and the client for it, and keeps the resolver sound. It
-- leaves the routes as they were where the base URL has no host name or nothing is found for it.
-- Otherwise it replaces them by one route for each target that the resolver gives, at least one, in order
-- of priority and weight: each URL is the scheme and the host name of the base URL, the port of the
-- target unless it is that of the scheme, and the path of the base URL without slashes at its end; each
-- client is pinned for that host name to the address of its target.
pub resolve_gateway-IsResolution :
    (lib : UrlLib) (g : GatewayClient) (r : SrvResolver) (net : Network)
    → IsSound r
    → IsResolution lib g r net (resolve_gateway lib g r net)
unfolding resolve_gateway
resolve_gateway-IsResolution lib g r net h = by_url (lib.parse g.base_url) refl
  where
    by_url :
        (o : Option Url)
        → lib.parse g.base_url ≡ o
        → IsResolution lib g r net (resolve_url lib g r net o)
    by_url none p = (refl, refl, h, inl (refl, inl p))
    by_url (some url) p = elim (Option-cases url.host_str) [
      | inl n ↦ rw (n, resolve_url) (refl, refl, h, inl (refl, inr (url, p, inl n)))
      | inr (domain, n) ↦ elim (Bool-cases (lib.is_ip_addr domain)) [
        | inl t ↦
            rw (n, resolve_url, t) (refl, refl, h, inl (refl, inr (url, p, inr (domain, n, inl t))))
        | inr t ↦
            rw (n, resolve_url, t) (resolve_domain-IsResolution lib g r net url domain h p n t)
      ]
    ]
