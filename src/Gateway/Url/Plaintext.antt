-- ===== src/Gateway/Url/Plaintext.antt =====
-- About src/gateway_client.rs, `enforce_https`: which URLs stay without TLS.
use Prim.Native.String.{String}
use aria_mobile_core.Base.{◌≡◌, ◌⊎◌, false, Option, none, some, concat}
use aria_mobile_core.Gateway.Url.{contains_char}

-- What may follow the host of a URL: a port, and a path.
abbrev pub after_host : Option String → Option String → String
after_host none none = ""
after_host none (some path) = concat "/" path
after_host (some port) none = concat ":" port
after_host (some port) (some path) = concat (concat ":" port) (concat "/" path)

-- The text has none of the characters that end a host.
abbrev pub IsPlain : String → Type 0
IsPlain s = (contains_char b'/' s ≡ false) × (contains_char b'@' s ≡ false)

abbrev pub IsPort : Option String → Type 0
IsPort none = Unit
IsPort (some port) = IsPlain port

-- The names that the source excepts: the device itself by name or by its IPv4 address, and `.local`.
abbrev pub IsLocalHost : String → Type 0
IsLocalHost host =
    (host ≡ "localhost") ⊎ (host ≡ "127.0.0.1") ⊎ ((name : String) × (host ≡ concat name ".local"))

-- The authority is the host with its port.
abbrev port_text : Option String → String
port_text none = ""
port_text (some port) = concat ":" port
