-- ===== src/Tests/Links.antt =====
-- Links and their parts: `url_decode`, `parse_query`, `parse_uri`, `parse_profile`.
use entropy_vpn.Base.{true, [], ◌∷◌, Bytes, codes, ◌≡◌, refl, pos, arith, bytes_eq}
use entropy_vpn.Base64.{base64_decode}
use entropy_vpn.Number.{parse_int}
use entropy_vpn.Profile.{Profile, new_profile}
use entropy_vpn.Result.{Result, ok, err}
use entropy_vpn.Share.Complete.{IsComplete, parse_profile-IsComplete}
use entropy_vpn.Share.Dispatch.{parse_profile}
use entropy_vpn.Share.Hysteria.{parse_hysteria, hysteria_profile, with_secret}
use entropy_vpn.Share.Shadowsocks.{parse_shadowsocks, split_main, split_credentials}
use entropy_vpn.Share.Vless.{parse_vless_or_trojan, vless_profile, tls_text}
use entropy_vpn.Share.Words.{
  parse_transport, parse_tls_mode, to_bool, normalize_path, resolve_service_name,
}
use entropy_vpn.Text.{
  first_non_empty_line, cut_seq, cut_first, cut_last, lower, trim, split_list, before_first, pieces,
  remove_spaces,
}
use entropy_vpn.Uri.Authority.{
  parse_endpoint, first_server_port, port_items, port_of, split_port_items, with_ports,
  without_ports,
}
use entropy_vpn.Uri.Decode.RoundTrip.{percent_encode, url_decode-percent_encode}
use entropy_vpn.Uri.Decode.{url_decode}
use entropy_vpn.Uri.Ports.{UriHasPort, parse_uri-UriHasPort}
use entropy_vpn.Uri.Query.RoundTrip.{print_query, assign_all, parse_query-print_query}
use entropy_vpn.Uri.Query.{parse_query, query_value, first_query_value, find_key, assign}
use entropy_vpn.Uri.RoundTrip.{Link, print_uri, uri_of, parse_uri-print_uri}
use entropy_vpn.Uri.{ParsedUri, parse_uri}

-- What `strtol` makes of a sign or of white space in an escape.
escapes_run :
    (url_decode (codes "a%20b+c%zz%4") ≡ codes "a b c%zz%4")
    × (url_decode (codes "%-1%+5") ≡ 255 ∷ 5 ∷ [])
unfolding url_decode
escapes_run = (refl, refl)

abbrev link : Bytes
link = codes "VLESS://user%20id@[::1]:8443/p?type=ws&security=tls&security=reality#name"

abbrev parsed : ParsedUri
parsed = record {
  scheme = codes "vless";
  user_info = codes "user id";
  host = codes "::1";
  port = pos 8443;
  server_ports = [];
  path = codes "/p";
  query = (codes "type", codes "ws") ∷ (codes "security", codes "reality") ∷ [];
  fragment = codes "name";
}

link_runs : parse_uri link ≡ ok parsed
unfolding parse_uri cut_seq cut_first cut_last lower url_decode parse_query pieces find_key assign
    bytes_eq parse_endpoint with_ports port_items port_of parse_int
link_runs = refl

port_ranges_run :
    parse_endpoint (codes "h:-5, 20000-30000")
    ≡ ok (record {
      host = codes "h";
      server_ports = codes "-5" ∷ codes "20000-30000" ∷ [];
      port = pos 20000;
    })
unfolding parse_endpoint with_ports port_items port_of split_port_items split_list first_server_port
    url_decode cut_last parse_int trim before_first
port_ranges_run = refl

abbrev trojan_profile : Profile
trojan_profile = record new_profile {
  protocol = codes "trojan";
  server = codes "h";
  port = pos 443;
  transport = codes "ws";
  tls_mode = codes "tls";
  remark = codes "n";
  password = codes "pw";
  alpn = codes "h2" ∷ codes "h3" ∷ [];
  host = codes "a.b";
  path = codes "/w";
  authority = codes "a.b";
}

-- A whole link, behind a blank line; without `security` a Trojan link means TLS.
trojan_runs :
    parse_profile (codes "\n trojan://pw@h:443?type=WS&host=a.b&path=w&alpn=h2,%20h3#n\n")
    ≡ ok trojan_profile
unfolding parse_profile first_non_empty_line trim lower cut_seq cut_first cut_last bytes_eq
    parse_vless_or_trojan vless_profile tls_text parse_transport parse_tls_mode to_bool
    normalize_path resolve_service_name parse_uri url_decode parse_query pieces find_key assign
    parse_endpoint with_ports port_items port_of parse_int query_value first_query_value split_list
trojan_runs = refl

parse_profile-IsComplete_example : IsComplete trojan_profile
parse_profile-IsComplete_example = parse_profile-IsComplete _ trojan_runs

abbrev errors_of : Result Profile → Bytes
errors_of (ok p) = []
errors_of (err m) = m

errors_run :
    (parse_profile (codes " \n") ≡ err (codes "Connection link is empty."))
    × (parse_profile (codes "://x") ≡ err (codes "Unsupported link format."))
    × (parse_profile (codes "http://x") ≡ err (codes "Unsupported protocol: http"))
    × (parse_profile (codes "vless://u@h") ≡ err (codes "VLESS link is incomplete."))
unfolding parse_profile first_non_empty_line trim lower cut_seq cut_first cut_last bytes_eq
    parse_vless_or_trojan parse_uri url_decode parse_query parse_endpoint without_ports
errors_run = (refl, refl, refl, refl)

shadowsocks_runs :
    parse_profile (codes "ss://YWVzOnB3QGg6MTA=#r")
    ≡ ok (record new_profile {
      protocol = codes "shadowsocks";
      server = codes "h";
      port = pos 10;
      method = codes "aes";
      password = codes "pw";
      remark = codes "r";
    })
unfolding parse_profile first_non_empty_line trim lower cut_seq cut_first cut_last bytes_eq
    parse_shadowsocks split_main base64_decode remove_spaces split_credentials parse_uri url_decode
    parse_endpoint with_ports port_items port_of parse_int query_value find_key split_list
shadowsocks_runs = refl

hysteria_runs :
    parse_profile (codes "hy2://pw@h?obfs=x&network=quic")
    ≡ ok (record new_profile {
      protocol = codes "hysteria2";
      server = codes "h";
      port = pos 443;
      transport = codes "quic";
      tls_mode = codes "tls";
      password = codes "pw";
      obfs = codes "x";
    })
unfolding parse_profile first_non_empty_line trim lower cut_seq cut_first cut_last bytes_eq
    parse_hysteria hysteria_profile with_secret to_bool parse_uri url_decode parse_query pieces
    find_key assign parse_endpoint without_ports parse_int query_value first_query_value split_list
hysteria_runs = refl

url_decode-percent_encode_example : url_decode (percent_encode (codes "a b/%")) ≡ codes "a b/%"
url_decode-percent_encode_example = url_decode-percent_encode (codes "a b/%") (omega arith)

parse_query-print_query_example :
    parse_query (print_query ((codes "k", codes "a&b") ∷ (codes "k", codes "=") ∷ []))
    ≡ assign_all [] ((codes "k", codes "a&b") ∷ (codes "k", codes "=") ∷ [])
parse_query-print_query_example =
    parse_query-print_query ((codes "k", codes "a&b") ∷ (codes "k", codes "=") ∷ []) (omega arith)

parse_uri-UriHasPort_example : UriHasPort (parse_uri (codes "vless://u@h:-5"))
parse_uri-UriHasPort_example = parse_uri-UriHasPort (codes "vless://u@h:-5")

abbrev printed : Link
printed = record {
  scheme = codes "vless";
  user_info = codes "u@x";
  in_brackets = true;
  host = codes "::1";
  port = 443;
  path = codes "a?b";
  query = (codes "type", codes "ws#") ∷ [];
  fragment = codes "my server";
}

parse_uri-print_uri_example : parse_uri (print_uri printed) ≡ ok (uri_of printed)
parse_uri-print_uri_example = parse_uri-print_uri printed (record {
  scheme_ne_nil = cc;
  scheme_plain = omega arith;
  user_bytes = omega arith;
  host_bytes = omega arith;
  host_ne_nil = cc;
  port_le = omega arith;
  path_bytes = omega arith;
  query_bytes = omega arith;
  fragment_bytes = omega arith;
})
