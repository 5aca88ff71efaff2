-- ===== src/Uri/Authority.antt =====
-- The host and the ports of a link: the last part of `parse_uri` in native/share_link_parser.cpp,
-- with `split_port_items` and `first_server_port`.
pub mod Ports
use entropy_vpn.Base.{
  ℕ, Bool, true, false, ◌||◌, List, [], ◌∷◌, Option, none, some, Bytes, codes, ◌==◌, if◌then◌else◌,
  is_empty, ℤ, pos, is_positive,
}
use entropy_vpn.Number.{parse_int}
use entropy_vpn.Result.{Result, ok, err}
use entropy_vpn.Text.{trim, cut_first, cut_last, before_first, contains, split_list}
use entropy_vpn.Uri.Decode.{url_decode}

unfoldable pub split_port_items : Bytes → List Bytes
split_port_items raw = split_list raw b','

-- The first item whose text in front of a dash is a positive number.
unfoldable pub first_server_port : List Bytes → ℤ
first_server_port [] = pos 0
first_server_port (item ∷ ports) =
    let later = first_server_port ports in
    let parsed = parse_int (trim (before_first (λ c. c == b'-') item)) (pos 0) in
    if is_positive parsed then parsed else later

-- `uri.host`, `uri.server_ports` and `uri.port`.
pub record Endpoint : Type 0 where
  pub host : Bytes
  pub server_ports : List Bytes
  pub port : ℤ

unfoldable pub port_items : Bytes → List Bytes
port_items port_text =
    if contains b',' port_text || contains b'-' port_text then split_port_items port_text else []

unfoldable pub port_of : Bytes → List Bytes → ℤ
port_of port_text [] = parse_int port_text (pos 0)
port_of port_text (item ∷ items) = first_server_port (item ∷ items)

unfoldable pub with_ports : Bytes → Bytes → Endpoint
with_ports host port_text = record {
  host = url_decode host;
  server_ports = port_items port_text;
  port = port_of port_text (port_items port_text);
}

unfoldable pub without_ports : Bytes → Endpoint
without_ports host = record { host = url_decode host; server_ports = []; port = pos 0 }

abbrev pub invalid_ipv6 : Bytes
invalid_ipv6 = codes "IPv6 endpoint is invalid."

-- What stands behind the bracket: ports, or anything else, which is ignored.
after_bracket : Bytes → Bytes → Endpoint
after_bracket host [] = without_ports host
after_bracket host (c ∷ rest) = if c == b':' then with_ports host rest else without_ports host

-- The text behind `[`, cut at `]`.
bracketed : Option (Bytes × Bytes) → Result Endpoint
unfolding after_bracket
bracketed none = err invalid_ipv6
bracketed (some ([], rest)) = err invalid_ipv6
bracketed (some (c ∷ host, rest)) = ok (after_bracket (c ∷ host) rest)

-- The text, cut at the last colon.
named : Bytes → Option (Bytes × Bytes) → Endpoint
named rest none = without_ports rest
named rest (some (host, port_text)) = with_ports host port_text

unfoldable pub parse_endpoint : Bytes → Result Endpoint
unfolding bracketed named
parse_endpoint [] = ok (without_ports [])
parse_endpoint (c ∷ rest) =
    if c == b'['
    then bracketed (cut_first b']' rest)
    else ok (named (c ∷ rest) (cut_last b':' (c ∷ rest)))
