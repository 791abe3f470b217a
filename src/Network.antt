-- ===== src/Network.antt =====
-- The checks of the hosts and addresses that the browser may reach
-- (src/job_applier/automation/network_security.py). Python's `ipaddress`, the resolver of names and the
-- string functions that clean a name are arguments.
pub mod Denied
pub mod Validated
use Prim.Native.Nat.{◌^◌}
use job_applier.Base.{
  ℕ, ◌+◌, ◌*◌, String, Bool, true, false, not, ◌&&◌, ◌||◌, Option, none, some, List, [], ◌∷◌, ltb,
  leb, ◌==◌, str_eq, non_empty, ◌<>◌, if◌then◌else◌,
}

-- IPv4Address and IPv6Address, by their numbers
pub data Address : Type 0 where
  v4 v6 : ℕ → Address

-- What the code asks of `ipaddress`: `is_flagged` is any of is_loopback, is_private, is_link_local,
-- is_multicast, is_reserved and is_unspecified.
pub record Library : Type 0 where
  pub is_flagged : Address → Bool
  pub ipv4_mapped : ℕ → Option ℕ
  pub ip_address : String → Option Address
  pub show : Address → String

-- a.b.c.d
abbrev pub ip4 : ℕ → ℕ → ℕ → ℕ → ℕ
ip4 a b c d = ((a * 256 + b) * 256 + c) * 256 + d

-- A network: its first address, and how many addresses it has.
pub record IpNetwork : Type 0 where
  pub base : ℕ
  pub size : ℕ

abbrev pub network : ℕ → ℕ → IpNetwork
network base size = record { base = base; size = size }

-- The sizes are those of /8, /10, /16, /12, /24, /15, /4 and /32.
abbrev pub restricted_ipv4_networks : List IpNetwork
restricted_ipv4_networks =
    network (ip4 0 0 0 0) 16777216
    ∷ network (ip4 10 0 0 0) 16777216
    ∷ network (ip4 100 64 0 0) 4194304
    ∷ network (ip4 127 0 0 0) 16777216
    ∷ network (ip4 169 254 0 0) 65536
    ∷ network (ip4 172 16 0 0) 1048576
    ∷ network (ip4 192 0 0 0) 256
    ∷ network (ip4 192 0 2 0) 256
    ∷ network (ip4 192 168 0 0) 65536
    ∷ network (ip4 198 18 0 0) 131072
    ∷ network (ip4 198 51 100 0) 256
    ∷ network (ip4 203 0 113 0) 256
    ∷ network (ip4 224 0 0 0) 268435456
    ∷ network (ip4 240 0 0 0) 268435456
    ∷ network (ip4 255 255 255 255) 1
    ∷ []

-- The address of the first two groups and the number of the other six.
abbrev pub ip6 : ℕ → ℕ → ℕ → ℕ
ip6 a b low = (a * 65536 + b) * 2 ^ 96 + low

abbrev pub restricted_ipv6_networks : List IpNetwork
restricted_ipv6_networks =
    network 0 1
    ∷ network 1 1
    ∷ network (65535 * 2 ^ 32) (2 ^ 32)
    ∷ network (ip6 100 65435 0) (2 ^ 32)
    ∷ network (ip6 256 0 0) (2 ^ 64)
    ∷ network (ip6 8193 3512 0) (2 ^ 96)
    ∷ network (ip6 64512 0 0) (2 ^ 121)
    ∷ network (ip6 65152 0 0) (2 ^ 118)
    ∷ network (ip6 65280 0 0) (2 ^ 120)
    ∷ network (ip6 64768 3778 596) 1
    ∷ []

abbrev pub in_network : ℕ → IpNetwork → Bool
in_network x n = leb n.base x && ltb x (n.base + n.size)

abbrev pub in_any : ℕ → List IpNetwork → Bool
in_any x [] = false
in_any x (n ∷ ns) = in_network x n || in_any x ns

abbrev pub is_v4_denied : Library → ℕ → Bool
is_v4_denied l x = l.is_flagged (v4 x) || in_any x restricted_ipv4_networks

abbrev pub is_v6_denied : Library → ℕ → Option ℕ → Bool
is_v6_denied l x (some mapped) = is_v4_denied l mapped
is_v6_denied l x none = in_any x restricted_ipv6_networks

unfoldable pub is_ip_denied : Library → Address → Bool
is_ip_denied l (v4 x) = is_v4_denied l x
is_ip_denied l (v6 x) = l.is_flagged (v6 x) || is_v6_denied l x (l.ipv4_mapped x)

abbrev pub restricted_hostnames : List String
restricted_hostnames =
    "localhost" ∷ "localhost.localdomain" ∷ "broadcasthost" ∷ "local" ∷ "internal"
    ∷ "metadata.google.internal" ∷ "instance-data" ∷ "docker.for.mac.localhost"
    ∷ "docker.for.win.localhost" ∷ []

-- `text.endswith(suffix)`
unfoldable pub ends_with : String → String → Bool
ends_with String.[] p = str_eq "" p
ends_with (String.◌∷◌ c s) p =
    let rest = ends_with s p in if str_eq (String.◌∷◌ c s) p then true else rest

-- Whether the name is one of those, or of a domain under one.
abbrev pub is_restricted_name : String → List String → Bool
is_restricted_name host [] = false
is_restricted_name host (r ∷ rs) =
    str_eq host r || (ends_with host ("." <> r) || is_restricted_name host rs)

-- A text that is no address is not allowed.
abbrev pub allows : Library → Option Address → Bool
allows l none = false
allows l (some a) = not (is_ip_denied l a)

-- The loop over the addresses that a name resolved to.
abbrev pub all_allowed : Library → List String → Bool
all_allowed l [] = true
all_allowed l (ip ∷ ips) = allows l (l.ip_address ip) && all_allowed l ips

-- The list that the resolver gives, `none` where it raises an error.
abbrev pub check_resolved : Library → Option (List String) → Option (List String)
check_resolved l none = none
check_resolved l (some []) = none
check_resolved l (some (ip ∷ ips)) = if all_allowed l (ip ∷ ips) then some (ip ∷ ips) else none

abbrev pub check_host :
    Library
    → (dns_resolver : String → Option (List String)) → String
    → Option Address
    → Option (List String)
check_host l dns_resolver raw_host (some a) =
    if is_ip_denied l a then none else some (l.show a ∷ [])
check_host l dns_resolver raw_host none = check_resolved l (dns_resolver raw_host)

-- The addresses that were validated, or `none` where the host is not allowed. `clean` stands for
-- `.strip().lower().rstrip(".")`, and `unbracket` for `.strip("[]")`.
unfoldable pub resolve_and_validate_host :
    Library
    → (clean unbracket : String → String) (dns_resolver : String → Option (List String))
      (hostname : String)
    → Option (List String)
unfolding ends_with
resolve_and_validate_host l clean unbracket dns_resolver hostname =
    let raw_host = unbracket (clean hostname) in
    if not (non_empty (clean hostname))
    then none
    else if is_restricted_name raw_host restricted_hostnames
    then none
    else check_host l dns_resolver raw_host (l.ip_address raw_host)

abbrev pub restricted_ports : List ℕ
restricted_ports =
    22 ∷ 25 ∷ 5900 ∷ 5901 ∷ 6080 ∷ 8000 ∷ 8899 ∷ 9222 ∷ 2375 ∷ 2376 ∷ 3306 ∷ 5432 ∷ 6379 ∷ 27017
    ∷ []

abbrev pub is_port_in : List ℕ → Option ℕ → Bool
is_port_in ports none = false
is_port_in [] (some port) = false
is_port_in (p ∷ ps) (some port) = port == p || is_port_in ps (some port)

-- A URL as `urlparse` gives it, its scheme in lower case.
pub record ParsedUrl : Type 0 where
  pub scheme : String
  pub hostname : Option String
  pub port : Option ℕ

abbrev pub is_allowed : Option (List String) → Bool
is_allowed none = false
is_allowed (some ips) = true

abbrev pub validate_hostname :
    Library
    → (clean unbracket : String → String) (dns_resolver : String → Option (List String)) → Option ℕ
    → Option String
    → Bool
validate_hostname l clean unbracket dns_resolver port none = false
validate_hostname l clean unbracket dns_resolver port (some hostname) =
    if not (non_empty hostname)
    then false
    else if is_port_in restricted_ports port
    then false
    else is_allowed (resolve_and_validate_host l clean unbracket dns_resolver hostname)

-- `parsed` is `none` where the URL is empty or cannot be parsed.
unfoldable pub validate_target_url :
    Library
    → (clean unbracket : String → String) (dns_resolver : String → Option (List String))
    → (allow_file_scheme : Bool) → (parsed : Option ParsedUrl) → Bool
validate_target_url l clean unbracket dns_resolver allow_file_scheme none = false
validate_target_url l clean unbracket dns_resolver allow_file_scheme (some u) =
    if str_eq u.scheme "file"
    then allow_file_scheme
    else if str_eq u.scheme "http" || str_eq u.scheme "https"
    then validate_hostname l clean unbracket dns_resolver u.port u.hostname
    else false
