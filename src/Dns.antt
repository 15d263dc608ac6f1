-- ===== src/Dns.antt =====
-- src/dns.rs: the SRV resolver and its cache.
pub mod Sort
pub mod Cached
pub mod Ordered
pub mod Kept
use Prim.Native.String.{String}
use aria_mobile_core.Base.{
  ℕ, ◌+◌, ◌==◌, ltb, if◌then◌else◌, Bool, ◌&&◌, ◌||◌, concat, decimal, Option, none, some, List, [],
  ◌∷◌, ◌++◌, map, head?,
}
use aria_mobile_core.Base.Dict.{Dict, get, insert}
use aria_mobile_core.Gateway.Routes.{trim_end_char}
use aria_mobile_core.Media.{SocketAddr}
use Sort.{sort_by}

pub record SrvTarget : Type 0 where
  pub host : String
  pub port : ℕ
  pub priority : ℕ
  pub weight : ℕ
  pub addr : SocketAddr

pub data SipTransport : Type 0 where
  udp tcp tls : SipTransport

-- Instants are milliseconds of one clock.
pub record CacheEntry : Type 0 where
  pub targets : List SrvTarget
  pub expires : ℕ

-- The DNS library's resolver is no state of ours.
pub record SrvResolver : Type 0 where
  pub cache : Dict CacheEntry

unfoldable pub new_resolver : SrvResolver
new_resolver = record { cache = [] }

-- What the DNS library reads of an SRV record.
pub record SrvRecord : Type 0 where
  pub priority : ℕ
  pub weight : ℕ
  pub port : ℕ
  pub target : String

-- `lookup_host` of the runtime: `failed` has its message.
pub data HostAnswer : Type 0 where
  timed_out : HostAnswer
  failed : String → HostAnswer
  addresses : List SocketAddr → HostAnswer

-- The DNS during one resolution: what `srv_lookup` gives (none for an error), whether the whole SRV
-- lookup ends within `query_timeout`, what `lookup_ip` gives for each host (none for an error or a
-- timeout), what `lookup_host` gives. `now` is the instant of the check of the cache, `later` that of
-- the write to it.
pub record Network : Type 0 where
  pub srv_lookup : String → Option (List SrvRecord)
  pub in_time : Bool
  pub lookup_ip : String → Option (List String)
  pub lookup_host : String → HostAnswer
  pub now : ℕ
  pub later : ℕ

-- The code's `Result<Vec<SrvTarget>, String>`.
pub data Resolved : Type 0 where
  found : List SrvTarget → Resolved
  unresolved : String → Resolved

abbrev pub srv_name : String → SipTransport → String
srv_name domain SipTransport.udp = concat "_sip._udp." domain
srv_name domain SipTransport.tcp = concat "_sip._tcp." domain
srv_name domain SipTransport.tls = concat "_sips._tcp." domain

-- By priority, and the larger weight first.
abbrev pub goes_before : ℕ → ℕ → ℕ → ℕ → Bool
goes_before p w p' w' = ltb p p' || ((p == p') && ltb w' w)

abbrev pub record_before : SrvRecord → SrvRecord → Bool
record_before a b = goes_before a.priority a.weight b.priority b.weight

abbrev pub target_before : SrvTarget → SrvTarget → Bool
target_before a b = goes_before a.priority a.weight b.priority b.weight

abbrev pub target_of : SrvRecord → String → String → SrvTarget
target_of r host ip = record {
  host = host;
  port = r.port;
  priority = r.priority;
  weight = r.weight;
  addr = record { ip = ip; port = r.port };
}

abbrev pub push_target : SrvRecord → String → Option (List String) → List SrvTarget → List SrvTarget
push_target r host none rest = rest
push_target r host (some []) rest = rest
push_target r host (some (ip ∷ ips)) rest = target_of r host ip ∷ rest

abbrev pub resolve_records : (String → Option (List String)) → List SrvRecord → List SrvTarget
resolve_records lookup_ip [] = []
resolve_records lookup_ip (r ∷ rs) =
    let host = trim_end_char b'.' r.target in
    push_target r host (lookup_ip host) (resolve_records lookup_ip rs)

-- None for an error.
unfoldable pub lookup_srv : Network → String → Option (List SrvTarget)
lookup_srv net name = elim (net.srv_lookup name) [
  | none ↦ none
  | some records ↦
      some (sort_by target_before (resolve_records net.lookup_ip (sort_by record_before records)))
]

unfoldable pub cache_targets : SrvResolver → String → List SrvTarget → ℕ → ℕ → SrvResolver
cache_targets r key targets now ttl = record r {
  cache = insert key (record { targets = targets; expires = now + ttl }) r.cache;
}

unfoldable pub clear_cache : SrvResolver → SrvResolver
clear_cache r = record r { cache = [] }

abbrev pub a_target : String → ℕ → SocketAddr → SrvTarget
a_target domain port addr = record {
  host = domain;
  port = port;
  priority = 0;
  weight = 0;
  addr = addr;
}

abbrev pub host_targets :
    SrvResolver → ℕ → String → ℕ → String → String → HostAnswer → SrvResolver × Resolved
host_targets r later domain port cache_key name HostAnswer.timed_out =
    (r, unresolved (concat "DNS lookup timed out for " name))
host_targets r later domain port cache_key name (HostAnswer.failed e) =
    (r, unresolved (concat "DNS resolve failed for " (concat name (concat ": " e))))
host_targets r later domain port cache_key name (HostAnswer.addresses []) =
    (r, unresolved (concat "No address found for " name))
host_targets r later domain port cache_key name (HostAnswer.addresses (a ∷ more)) =
    let targets = map (a_target domain port) (a ∷ more) in
    (cache_targets r cache_key targets later 120000, found targets)

unfoldable pub fallback_a_record :
    SrvResolver → Network → String → ℕ → String → SrvResolver × Resolved
fallback_a_record r net domain port cache_key =
    let name = concat domain (concat ":" (decimal 5 port)) in
    host_targets r net.later domain port cache_key name (net.lookup_host name)

abbrev pub cached : SrvResolver → String → ℕ → Option (List SrvTarget)
cached r name now = elim (get name r.cache) [
  | none ↦ none
  | some entry ↦ if ltb now entry.expires then some entry.targets else none
]

abbrev pub use_srv :
    SrvResolver → Network → String → ℕ → String → Option (List SrvTarget) → SrvResolver × Resolved
use_srv r net domain port name none = fallback_a_record r net domain port name
use_srv r net domain port name (some []) = fallback_a_record r net domain port name
use_srv r net domain port name (some (t ∷ ts)) =
    (cache_targets r name (t ∷ ts) net.later 300000, found (t ∷ ts))

abbrev pub resolve_with :
    SrvResolver → Network → String → ℕ → String → Option (List SrvTarget) → SrvResolver × Resolved
resolve_with r net domain port name (some targets) = (r, found targets)
resolve_with r net domain port name none =
    use_srv r net domain port name (if net.in_time then lookup_srv net name else none)

-- The cache first, then SRV records, then plain addresses.
unfoldable pub resolve_sip_server :
    SrvResolver → Network → String → SipTransport → ℕ → SrvResolver × Resolved
resolve_sip_server r net domain transport fallback_port =
    let name = srv_name domain transport in
    resolve_with r net domain fallback_port name (cached r name net.now)
