-- ===== src/Config/Dns.antt =====
-- The DNS servers of a configuration: `parse_doh_server`, `parse_dot_server`, `xray_dns_entry` and
-- `write_sing_box_dns_server` of native/share_link_parser.cpp, with the tables for the IP modes.
pub mod Ports
use entropy_vpn.Base.{
  ℕ, zero, suc, ◌+◌, ◌*◌, ◌-◌, Bool, true, false, not, ◌&&◌, ◌||◌, List, [], ◌∷◌, ◌++◌, Option,
  none, some, Bytes, codes, ◌==◌, leb, if◌then◌else◌, is_empty, length, drop, ℤ, pos, negsuc,
}
use entropy_vpn.Json.Writer.{quoted}
use entropy_vpn.Number.{write_int}
use entropy_vpn.Share.Words.{is}
use entropy_vpn.Text.{
  is_digit, is_space, lower, trim, trim_start, cut_first, strip_prefix, contains, is_some,
}

unfoldable pub dns_strategy : Bytes → Bytes
dns_strategy mode =
    if is mode "dualStack"
    then codes "prefer_ipv4"
    else if is mode "ipv6"
    then codes "ipv6_only"
    else codes "ipv4_only"

unfoldable pub xray_dns_strategy : Bytes → Bytes
xray_dns_strategy mode =
    if is mode "dualStack"
    then codes "UseIP"
    else if is mode "ipv6"
    then codes "UseIPv6"
    else codes "UseIPv4"

unfoldable pub tun_addresses : Bytes → List Bytes
tun_addresses mode =
    if is mode "dualStack"
    then codes "172.19.0.1/30" ∷ codes "fdfe:dcba:9876::1/126" ∷ []
    else if is mode "ipv6"
    then codes "fdfe:dcba:9876::1/126" ∷ []
    else codes "172.19.0.1/30" ∷ []

unfoldable pub tun_route_addresses : Bytes → List Bytes
tun_route_addresses mode =
    if is mode "ipv6"
    then codes "::/1" ∷ codes "8000::/1" ∷ []
    else if is mode "dualStack"
    then []
    else codes "0.0.0.0/1" ∷ codes "128.0.0.0/1" ∷ []

-- Digits and dots only.
abbrev is_dotted : Bytes → Bool
is_dotted [] = true
is_dotted (c ∷ s) = (is_digit c || c == b'.') && is_dotted s

unfoldable pub looks_ipv4 : Bytes → Bool
looks_ipv4 value = not (is_empty value) && is_dotted value && contains b'.' value

unfoldable pub looks_ipv6 : Bytes → Bool
looks_ipv6 value = contains b':' value

-- `std::atoi`: white space, one sign, digits. Where the number does not fit an `int`, the C
-- standard leaves the result undefined; here it keeps its value.
atoi_digits : Bytes → ℕ → ℕ
atoi_digits [] n = n
atoi_digits (c ∷ s) n =
    let more = atoi_digits s (n * 10 + (c - b'0')) in if is_digit c then more else n

minus : ℕ → ℤ
minus zero = pos zero
minus (suc n) = negsuc n

atoi_signed : Bytes → ℤ
unfolding atoi_digits minus
atoi_signed [] = pos 0
atoi_signed (c ∷ s) =
    if c == b'-'
    then minus (atoi_digits s 0)
    else if c == b'+'
    then pos (atoi_digits s 0)
    else pos (atoi_digits (c ∷ s) 0)

unfoldable pub atoi : Bytes → ℤ
unfolding atoi_signed
atoi s = atoi_signed (trim_start s)

-- `port > 0 && port <= 65535`
abbrev pub in_port_range : ℤ → Bool
in_port_range (pos n) = leb 1 n && leb n 65535
in_port_range (negsuc n) = false

abbrev pub port_or : ℤ → ℤ → ℤ
port_or default port = if in_port_range port then port else default

-- Behind the bracket: a colon with a text behind it.
bracket_port : ℤ → Bytes → ℤ
bracket_port default [] = default
bracket_port default (c ∷ []) = default
bracket_port default (c ∷ d ∷ s) = if c == b':' then port_or default (atoi (d ∷ s)) else default

-- The only colon is in front of a port.
one_colon : ℤ → Bytes → Option (Bytes × Bytes) → Bytes × ℤ
one_colon default host none = (host, default)
one_colon default host (some (before, after)) =
    if not (contains b':' after) && in_port_range (atoi after)
    then (before, atoi after)
    else (host, default)

plain_server : ℤ → Bytes → Bytes × ℤ
unfolding one_colon
plain_server default host = one_colon default host (cut_first b':' host)

bracket_server : ℤ → Bytes → Option (Bytes × Bytes) → Bytes × ℤ
unfolding plain_server bracket_port
bracket_server default host none = plain_server default host
bracket_server default host (some (inside, after)) = (inside, bracket_port default after)

-- The host and the port, which is the default one unless a valid port is given.
unfoldable pub host_and_port : ℤ → Bytes → Bytes × ℤ
unfolding plain_server bracket_server
host_and_port default [] = plain_server default []
host_and_port default (c ∷ s) =
    if c == b'['
    then bracket_server default (c ∷ s) (cut_first b']' s)
    else plain_server default (c ∷ s)

-- The scheme is compared in lower case.
strip_scheme : Bytes → Bytes → Bytes
strip_scheme scheme s =
    if is_some (strip_prefix scheme (lower s)) then drop (length scheme) s else s

pub record DohServer : Type 0 where
  pub host : Bytes
  pub port : ℤ
  pub path : Bytes

pub record DotServer : Type 0 where
  pub host : Bytes
  pub port : ℤ

doh_server : Bytes → Bytes × ℤ → DohServer
doh_server path (host, port) = record { host = host; port = port; path = path }

doh_parts : Bytes → Option (Bytes × Bytes) → DohServer
unfolding doh_server
doh_parts remainder none = doh_server (codes "/dns-query") (host_and_port (pos 443) remainder)
doh_parts remainder (some (authority, path)) =
    doh_server (b'/' ∷ path) (host_and_port (pos 443) authority)

unfoldable pub parse_doh_server : Bytes → DohServer
unfolding doh_parts strip_scheme
parse_doh_server value =
    let remainder = strip_scheme (codes "https://") (trim value) in
    doh_parts remainder (cut_first b'/' remainder)

unfoldable pub parse_dot_server : Bytes → DotServer
unfolding strip_scheme
parse_dot_server value =
    let server = host_and_port (pos 853) (strip_scheme (codes "tls://") (trim value)) in
    record { host = server.0; port = server.1 }

-- `trimmed.rfind(prefix, 0) == 0`
abbrev starts_with : Bytes → Bytes → Bool
starts_with prefix s = is_some (strip_prefix prefix s)

-- Whether there are two colons or more.
several_colons : Option (Bytes × Bytes) → Bool
several_colons none = false
several_colons (some (before, after)) = contains b':' after

doh_entry : Bytes → Bytes
doh_entry trimmed =
    if starts_with (codes "https://") trimmed || starts_with (codes "https+local://") trimmed
    then trimmed
    else codes "https://" ++ trimmed

dot_entry : Bytes → Bytes
unfolding several_colons
dot_entry trimmed =
    if starts_with (codes "tls://") trimmed || starts_with (codes "tls+local://") trimmed
    then trimmed
    else if several_colons (cut_first b':' trimmed) && not (starts_with (codes "[") trimmed)
    then codes "tls://[" ++ trimmed ++ codes "]"
    else codes "tls://" ++ trimmed

unfoldable pub xray_dns_entry : Bytes → Bytes → Bytes
unfolding doh_entry dot_entry
xray_dns_entry mode value =
    let trimmed = trim value in
    if is_empty trimmed
    then trimmed
    else if is mode "doh"
    then doh_entry trimmed
    else if is mode "dot"
    then dot_entry trimmed
    else trimmed

-- The `detour` field, unless it is empty, and the closing brace.
unfoldable pub detour_end : Bytes → Bytes
detour_end detour =
    if is_empty detour then codes "}" else codes ",\"detour\":" ++ quoted detour ++ codes "}"

unfoldable pub write_sing_box_dns_server : Bytes → Bytes → Bytes → Bytes → Bytes
unfolding detour_end
write_sing_box_dns_server mode tag server detour =
    if is mode "doh"
    then codes "{\"type\":\"https\",\"tag\":"
      ++ quoted tag
      ++ codes ",\"server\":"
      ++ quoted (parse_doh_server server).host
      ++ codes ",\"server_port\":"
      ++ write_int (parse_doh_server server).port
      ++ codes ",\"path\":"
      ++ quoted (parse_doh_server server).path
      ++ detour_end detour
    else if is mode "dot"
    then codes "{\"type\":\"tls\",\"tag\":"
      ++ quoted tag
      ++ codes ",\"server\":"
      ++ quoted (parse_dot_server server).host
      ++ codes ",\"server_port\":"
      ++ write_int (parse_dot_server server).port
      ++ detour_end detour
    else codes "{\"type\":\"udp\",\"tag\":"
      ++ quoted tag
      ++ codes ",\"server\":"
      ++ quoted server
      ++ codes ",\"server_port\":53"
      ++ detour_end detour
