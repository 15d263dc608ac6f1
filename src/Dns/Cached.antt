-- ===== src/Dns/Cached.antt =====
-- About src/dns.rs: what is found and cached, and for how long.
use aria_mobile_core.Base.{
  ℕ, ◌+◌, ◌≡◌, refl, ltb, if◌then◌else◌, String, concat, decimal, Option, none, some, List, [], ◌∷◌,
  map, inl, inr, Bool-cases, Option-cases,
}
use aria_mobile_core.Base.Dict.{get, Every, Every-get, Every-insert}
use mathlib.Core.Option.{some-injective}
use aria_mobile_core.Media.{SocketAddr}
use aria_mobile_core.Dns.Sort.{IsOrdered}
use aria_mobile_core.Dns.Ordered.{lookup_srv-IsOrdered}
use aria_mobile_core.Dns.{
  SrvTarget, SrvResolver, SipTransport, HostAnswer, Network, Resolved, found, unresolved, srv_name,
  target_before, lookup_srv, cache_targets, a_target, host_targets, fallback_a_record, cached,
  use_srv, resolve_with, resolve_sip_server,
}

-- Some targets, in order.
abbrev pub IsAnswer : List SrvTarget → Type 0
IsAnswer [] = ⊥
IsAnswer (t ∷ ts) = IsOrdered target_before (t ∷ ts)

abbrev pub IsSound : SrvResolver → Type 0
IsSound r = Every (λ k entry. IsAnswer entry.targets) r.cache

-- The resolver is sound and what was found is an answer; where nothing was, the cache is as before.
abbrev pub IsResolved : SrvResolver → SrvResolver × Resolved → Type 0
IsResolved r (r', found ts) = IsSound r' × IsAnswer ts
IsResolved r (r', unresolved e) = r' ≡ r

equal_weights :
    (domain : String) (port : ℕ) (a : SocketAddr) (addrs : List SocketAddr)
    → IsAnswer (map (a_target domain port) (a ∷ addrs))
equal_weights domain port a [] = tt
equal_weights domain port a (b ∷ addrs) = (refl, equal_weights domain port b addrs)

cache_targets-IsSound :
    (r : SrvResolver) (key : String) (ts : List SrvTarget) (now ttl : ℕ)
    → IsSound r
    → IsAnswer ts
    → IsSound (cache_targets r key ts now ttl)
unfolding cache_targets
cache_targets-IsSound r key ts now ttl h a =
    Every-insert (λ k entry. IsAnswer entry.targets) key
      (record { targets = ts; expires = now + ttl }) r.cache a h

fallback_a_record-IsResolved :
    (r : SrvResolver) (net : Network) (domain : String) (port : ℕ) (key : String)
    → IsSound r
    → IsResolved r (fallback_a_record r net domain port key)
unfolding fallback_a_record
fallback_a_record-IsResolved r net domain port key h =
    by_answer (concat domain (concat ":" (decimal 5 port)))
      (net.lookup_host (concat domain (concat ":" (decimal 5 port))))
  where
    by_answer :
        (name : String) (a : HostAnswer)
        → IsResolved r (host_targets r net.later domain port key name a)
    by_answer name HostAnswer.timed_out = refl
    by_answer name (HostAnswer.failed e) = refl
    by_answer name (HostAnswer.addresses []) = refl
    by_answer name (HostAnswer.addresses (a ∷ addrs)) =
        let ts = map (a_target domain port) (a ∷ addrs) in
        let good = equal_weights domain port a addrs in
        (cache_targets-IsSound r key ts net.later 120000 h good, good)

use_srv-IsResolved :
    (r : SrvResolver) (net : Network) (domain : String) (port : ℕ) (name : String)
    (o : Option (List SrvTarget))
    → IsSound r
    → ((ts : List SrvTarget) → o ≡ some ts → IsOrdered target_before ts)
    → IsResolved r (use_srv r net domain port name o)
use_srv-IsResolved r net domain port name none h s =
    fallback_a_record-IsResolved r net domain port name h
use_srv-IsResolved r net domain port name (some []) h s =
    fallback_a_record-IsResolved r net domain port name h
use_srv-IsResolved r net domain port name (some (t ∷ ts)) h s =
    let good = s (t ∷ ts) refl in
    (cache_targets-IsSound r name (t ∷ ts) net.later 300000 h good, good)

srv_in_order :
    (net : Network) (name : String) (ts : List SrvTarget)
    → (if net.in_time then lookup_srv net name else none) ≡ some ts
    → IsOrdered target_before ts
unfolding lookup_srv
srv_in_order net name ts e = elim (Bool-cases net.in_time) [
  | inr f ↦ let wrong = rw f at e in cc
  | inl t ↦ elim (Option-cases (net.srv_lookup name)) [
    | inl n ↦ let wrong : none ≡ some ts = rw (t, lookup_srv, n) at e in cc
    | inr (records, n) ↦ (lookup_srv-IsOrdered net name records ts n (rw t at e)).0
  ]
]

cached-IsAnswer :
    (r : SrvResolver) (name : String) (now : ℕ) (ts : List SrvTarget)
    → IsSound r
    → cached r name now ≡ some ts
    → IsAnswer ts
cached-IsAnswer r name now ts h e = elim (Option-cases (get name r.cache)) [
  | inl n ↦ let wrong : none ≡ some ts = rw (cached, n) at e in cc
  | inr (entry, n) ↦ elim (Bool-cases (ltb now entry.expires)) [
    | inr f ↦ let wrong : none ≡ some ts = rw (cached, n, f) at e in cc
    | inl t ↦
        let same : entry.targets ≡ ts = some-injective entry.targets ts (rw (cached, n, t) at e) in
        rw (← same) (Every-get (λ k c. IsAnswer c.targets) name r.cache n h)
  ]
]

pub resolve_sip_server-IsResolved :
    (r : SrvResolver) (net : Network) (domain : String) (transport : SipTransport) (port : ℕ)
    → IsSound r
    → IsResolved r (resolve_sip_server r net domain transport port)
unfolding resolve_sip_server
resolve_sip_server-IsResolved r net domain transport port h =
    by_cached (cached r (srv_name domain transport) net.now)
      (cached-IsAnswer r (srv_name domain transport) net.now)
  where
    by_cached :
        (o : Option (List SrvTarget))
        → ((ts : List SrvTarget) → IsSound r → o ≡ some ts → IsAnswer ts)
        → IsResolved r (resolve_with r net domain port (srv_name domain transport) o)
    by_cached (some ts) s = (h, s ts h refl)
    by_cached none s =
        let name = srv_name domain transport in
        use_srv-IsResolved r net domain port name
          (if net.in_time then lookup_srv net name else none) h (srv_in_order net name)
