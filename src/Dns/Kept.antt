-- ===== src/Dns/Kept.antt =====
-- About src/dns.rs: a second resolution while the cache is fresh.
use aria_mobile_core.Base.{
  ℕ, ◌+◌, ◌<◌, ◌≤◌, ◌≡◌, refl, subst, ltb, true, if◌then◌else◌, String, concat, decimal, Option,
  none, some, List, [], ◌∷◌, map, arith,
}
use text.Mathlib.TextPositions.{eq_refl}
use aria_mobile_core.Base.Dict.{get, get-insert}
use aria_mobile_core.Dns.{
  SrvTarget, SrvResolver, SipTransport, HostAnswer, Network, Resolved, found, unresolved, srv_name,
  lookup_srv, cache_targets, a_target, host_targets, fallback_a_record, cached, use_srv,
  resolve_with, resolve_sip_server,
}

-- What was found is in the cache, for two minutes at least.
abbrev IsKept : String → ℕ → SrvResolver × Resolved → Type 0
IsKept name later (r, unresolved e) = Unit
IsKept name later (r, found ts) =
    (ttl : ℕ) × (120000 ≤ ttl)
    × (get name r.cache ≡ some (record { targets = ts; expires = later + ttl }))

get-cache_targets :
    (r : SrvResolver) (name : String) (ts : List SrvTarget) (later ttl : ℕ)
    → get name (cache_targets r name ts later ttl).cache
      ≡ some (record { targets = ts; expires = later + ttl })
unfolding cache_targets
get-cache_targets r name ts later ttl =
    rw (get-insert name name (record { targets = ts; expires = later + ttl }) r.cache, eq_refl name)
      refl

fallback_a_record-IsKept :
    (r : SrvResolver) (net : Network) (domain : String) (port : ℕ) (key : String)
    → IsKept key net.later (fallback_a_record r net domain port key)
unfolding fallback_a_record
fallback_a_record-IsKept r net domain port key =
    by_answer (concat domain (concat ":" (decimal 5 port)))
      (net.lookup_host (concat domain (concat ":" (decimal 5 port))))
  where
    by_answer :
        (name : String) (a : HostAnswer)
        → IsKept key net.later (host_targets r net.later domain port key name a)
    by_answer name HostAnswer.timed_out = tt
    by_answer name (HostAnswer.failed e) = tt
    by_answer name (HostAnswer.addresses []) = tt
    by_answer name (HostAnswer.addresses (a ∷ addrs)) =
        let ts = map (a_target domain port) (a ∷ addrs) in
        (120000, omega arith, get-cache_targets r key ts net.later 120000)

use_srv-IsKept :
    (r : SrvResolver) (net : Network) (domain : String) (port : ℕ) (name : String)
    (o : Option (List SrvTarget))
    → IsKept name net.later (use_srv r net domain port name o)
use_srv-IsKept r net domain port name none = fallback_a_record-IsKept r net domain port name
use_srv-IsKept r net domain port name (some []) = fallback_a_record-IsKept r net domain port name
use_srv-IsKept r net domain port name (some (t ∷ ts)) =
    (300000, omega arith, get-cache_targets r name (t ∷ ts) net.later 300000)

resolve_sip_server-IsKept :
    (r : SrvResolver) (net : Network) (domain : String) (transport : SipTransport) (port : ℕ)
    → cached r (srv_name domain transport) net.now ≡ none
    → IsKept (srv_name domain transport) net.later (resolve_sip_server r net domain transport port)
unfolding resolve_sip_server
resolve_sip_server-IsKept r net domain transport port n =
    let name = srv_name domain transport in
    rw (n, resolve_with)
      (use_srv-IsKept r net domain port name (if net.in_time then lookup_srv net name else none))

-- Targets that were found and were not in the cache are found again for two minutes: whatever the DNS
-- says by then, the resolver gives the same list and changes nothing, also where the second
-- resolution asks with another fallback port.
pub resolve_sip_server_again :
    (r r' : SrvResolver) (net net' : Network) (domain : String) (transport : SipTransport)
    (port port' : ℕ) (ts : List SrvTarget)
    → cached r (srv_name domain transport) net.now ≡ none
    → resolve_sip_server r net domain transport port ≡ (r', found ts)
    → net'.now < net.later + 120000
    → resolve_sip_server r' net' domain transport port' ≡ (r', found ts)
unfolding resolve_sip_server
resolve_sip_server_again r r' net net' domain transport port port' ts n e h =
    let name = srv_name domain transport in
    let (ttl, long, g) : IsKept name net.later (r', found ts) =
      subst (IsKept name net.later) e (resolve_sip_server-IsKept r net domain transport port n) in
    let fresh : ltb net'.now (net.later + ttl) ≡ true = ground (arith, long, h) in
    rw (cached, g, fresh) refl
