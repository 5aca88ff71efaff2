-- ===== src/Tests/Configs.antt =====
-- Links in a text, and the parts of a configuration.
use entropy_vpn.Base.{
  [], ◌∷◌, Bytes, codes, some, ◌≡◌, refl, pos, All, false, not, ◌&&◌, is_empty, bytes_eq,
}
use entropy_vpn.Config.Dns.Ports.{IsServerPort, parse_server-IsServerPort}
use entropy_vpn.Config.Dns.{parse_doh_server, parse_dot_server, host_and_port, atoi}
use entropy_vpn.Config.Fragments.Rows.{to_json-IsValue}
use entropy_vpn.Config.Fragments.WellFormed.{IsValue, Ensures}
use entropy_vpn.Config.Fragments.{
  require_value, member, string_member, filled_member, filled_array, object,
}
use entropy_vpn.Config.Matchers.Paths.{
  IsSplit, path_dirname-path_basename, literal_of, literal_of-regex_escape,
}
use entropy_vpn.Config.Matchers.Sorted.{IsAscending, has, sorted_unique-IsAscending}
use entropy_vpn.Config.Matchers.{
  is_slash, path_dirname, path_basename, regex_escape, sorted_unique, collect, any_of,
  matcher_objects, process_matcher_json, domain_matcher_json, keep_filled, sort, unique,
}
use entropy_vpn.Config.Options.{ConfigOptions, new_options}
use entropy_vpn.Config.Routes.Braces.{EndsInBrace, matcher_json-EndsInBrace}
use entropy_vpn.Config.Routes.{routed, without_last}
use entropy_vpn.Config.SingBox.WellFormed.{sing_box_outbound_json-IsValue}
use entropy_vpn.Config.SingBox.{sing_box_outbound_json, sing_box_tls_json, sing_box_transport_json}
use entropy_vpn.Config.XrayConfig.WellFormed.{build_xray_config-IsValue}
use entropy_vpn.Config.XrayConfig.{build_xray_config}
use entropy_vpn.Config.Xray.WellFormed.{xray_outbound_json-IsValue}
use entropy_vpn.Config.Xray.{xray_outbound_json, xray_stream_json, network_of, security_of}
use entropy_vpn.Json.Escape.{json_escape, escape_byte}
use entropy_vpn.Json.Rows.{write_object}
use entropy_vpn.Json.Writer.{quoted}
use entropy_vpn.Number.{write_int}
use entropy_vpn.Profile.{Profile, new_profile, to_json}
use entropy_vpn.Result.{ok}
use entropy_vpn.Share.Extract.Clean.{IsCleanLink, extract_share_links-IsCleanLink}
use entropy_vpn.Share.Extract.Output.{parse_share_links_json-IsValue}
use entropy_vpn.Share.Extract.{
  extract_share_links, link_starts, links_at, trim_share_link, candidate, is_share_link_scheme,
  is_likely_share_link_boundary, parse_share_links_json, take, pop_last, drop_separators,
}
use entropy_vpn.Text.{
  trim, trim_start, lower, strip_prefix, before_first, without_utf8_bom_markers, cut_first,
}

abbrev message : Bytes
message = codes "see <vless://u@h:1#a>, ss://x) and http://y\nss://z."

extract_runs :
    extract_share_links message
    ≡ codes "vless://u@h:1#a" ∷ codes "ss://x) and http://y" ∷ codes "ss://z" ∷ []
unfolding extract_share_links link_starts links_at trim_share_link candidate is_share_link_scheme
    is_likely_share_link_boundary without_utf8_bom_markers trim lower strip_prefix before_first take
    pop_last drop_separators bytes_eq
extract_runs = refl

extract_share_links-IsCleanLink_example : All IsCleanLink (extract_share_links message)
extract_share_links-IsCleanLink_example = extract_share_links-IsCleanLink message

parse_share_links_json-IsValue_example : IsValue (parse_share_links_json message)
parse_share_links_json-IsValue_example = parse_share_links_json-IsValue message

abbrev reality_profile : Profile
reality_profile = record new_profile {
  protocol = codes "vless";
  server = codes "h";
  port = pos 443;
  user_id = codes "u";
  transport = codes "ws";
  tls_mode = codes "reality";
  public_key = codes "k";
  host = codes "a\"b";
}

outbound_runs :
    sing_box_outbound_json reality_profile (codes " eth0 ")
    ≡ ok (
        codes
          "{\"tag\":\"proxy\",\"bind_interface\":\"eth0\",\"type\":\"vless\",\"server\":\"h\",\"server_port\":443,\"uuid\":\"u\",\"flow\":\"\",\"packet_encoding\":\"xudp\",\"transport\":{\"type\":\"ws\",\"path\":\"/\",\"headers\":{\"Host\":\"a\\\"b\"}},\"tls\":{\"enabled\":true,\"utls\":{\"enabled\":true,\"fingerprint\":\"chrome\"},\"reality\":{\"enabled\":true,\"public_key\":\"k\",\"short_id\":\"\"}}}")
unfolding sing_box_outbound_json sing_box_tls_json sing_box_transport_json require_value member
    string_member filled_member filled_array object quoted json_escape escape_byte write_int trim
    bytes_eq
outbound_runs = refl

xray_runs :
    xray_outbound_json reality_profile new_options
    ≡ ok (
        codes
          "{\"tag\":\"proxy\",\"protocol\":\"vless\",\"settings\":{\"address\":\"h\",\"port\":443,\"id\":\"u\",\"encryption\":\"none\",\"flow\":\"\",\"level\":0},\"streamSettings\":{\"network\":\"websocket\",\"security\":\"reality\",\"realitySettings\":{\"serverName\":\"h\",\"fingerprint\":\"chrome\",\"password\":\"k\",\"shortId\":\"\",\"spiderX\":\"\"},\"wsSettings\":{\"path\":\"/\",\"host\":\"a\\\"b\"}}}")
unfolding xray_outbound_json xray_stream_json network_of security_of require_value member
    string_member filled_member filled_array object quoted json_escape escape_byte write_int
    write_object trim bytes_eq
xray_runs = refl

sing_box_outbound_json-IsValue_example : Ensures IsValue (sing_box_outbound_json reality_profile [])
sing_box_outbound_json-IsValue_example = sing_box_outbound_json-IsValue reality_profile []

xray_outbound_json-IsValue_example :
    Ensures IsValue (xray_outbound_json reality_profile new_options)
xray_outbound_json-IsValue_example = xray_outbound_json-IsValue reality_profile new_options

abbrev xray_options : ConfigOptions
xray_options = record new_options {
  traffic_mode = codes "tun";
  domain_split_tunnel_mode = codes "whitelist";
  domain_split_tunnel_domains = codes "b.c" ∷ codes "a.b" ∷ [];
}

build_xray_config-IsValue_example : Ensures IsValue (build_xray_config reality_profile xray_options)
build_xray_config-IsValue_example = build_xray_config-IsValue reality_profile xray_options refl

to_json-IsValue_example : IsValue (to_json reality_profile)
to_json-IsValue_example = to_json-IsValue reality_profile

sorted_unique-IsAscending_example :
    IsAscending (sorted_unique (codes "b" ∷ codes " " ∷ codes "a" ∷ codes "b" ∷ []))
    × ((v : Bytes)
        → has v (sorted_unique (codes "b" ∷ codes " " ∷ codes "a" ∷ codes "b" ∷ []))
          ≡ (has v (codes "b" ∷ codes " " ∷ codes "a" ∷ codes "b" ∷ []) && not (is_empty (trim v))))
sorted_unique-IsAscending_example =
    sorted_unique-IsAscending (codes "b" ∷ codes " " ∷ codes "a" ∷ codes "b" ∷ [])

server_runs :
    (parse_doh_server (codes "HTTPS://[::1]:8443/q")
      ≡ record { host = codes "::1"; port = pos 8443; path = codes "/q" })
    × (parse_dot_server (codes "dns:0") ≡ record { host = codes "dns:0"; port = pos 853 })
unfolding parse_doh_server parse_dot_server host_and_port atoi trim trim_start lower strip_prefix
    cut_first
server_runs = (refl, refl)

parse_server-IsServerPort_example :
    IsServerPort (parse_doh_server (codes "h:70000")).port
    × IsServerPort (parse_dot_server (codes "h:70000")).port
parse_server-IsServerPort_example = parse_server-IsServerPort (codes "h:70000")

abbrev app_options : ConfigOptions
app_options = record new_options {
  split_tunnel_mode = codes "blacklist";
  split_tunnel_app_paths = codes "C:\\a\\b.exe" ∷ [];
}

matcher_json-EndsInBrace_example :
    EndsInBrace (process_matcher_json app_options) × EndsInBrace (domain_matcher_json app_options)
matcher_json-EndsInBrace_example = matcher_json-EndsInBrace app_options

-- A list of blank paths gives the empty matcher, and a rule that starts with a comma.
blank_paths :
    routed
      (process_matcher_json (record app_options { split_tunnel_app_paths = codes " " ∷ [] }))
      (codes "direct")
    ≡ codes ",{,\"action\":\"route\",\"outbound\":\"direct\"}"
unfolding routed process_matcher_json collect matcher_objects any_of sorted_unique keep_filled sort
    unique without_last trim
blank_paths = refl

path_dirname-path_basename_example :
    IsSplit
      (codes "C:\\a\\b.exe")
      (path_dirname (codes "C:\\a\\b.exe"))
      (path_basename (codes "C:\\a\\b.exe"))
    × All (λ c. is_slash c ≡ false) (path_basename (codes "C:\\a\\b.exe"))
path_dirname-path_basename_example = path_dirname-path_basename (codes "C:\\a\\b.exe")

literal_of-regex_escape_example : literal_of (regex_escape (codes "a.b\\c")) ≡ some (codes "a.b\\c")
literal_of-regex_escape_example = literal_of-regex_escape (codes "a.b\\c")
