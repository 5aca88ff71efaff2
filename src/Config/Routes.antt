-- ===== src/Config/Routes.antt =====
-- The route rules of sing-box: `append_sing_box_route_rules` of native/share_link_parser.cpp.
pub mod Braces
pub mod WellFormed
pub mod Items
use entropy_vpn.Base.{Bool, not, ◌&&◌, ◌||◌, [], ◌∷◌, ◌++◌, Bytes, codes, if◌then◌else◌, is_empty}
use entropy_vpn.Config.Dns.{dns_strategy}
use entropy_vpn.Config.Fragments.{when}
use entropy_vpn.Config.Matchers.{process_matcher_json, domain_matcher_json, dns_matcher_json}
use entropy_vpn.Config.Options.{ConfigOptions}
use entropy_vpn.Share.Words.{is}

abbrev pub drop_end : Bytes → Bytes → Bytes
drop_end s [] = []
drop_end s (c ∷ t) = s

-- `substr(0, size() - 1)`, on a text that is not empty.
unfoldable pub without_last : Bytes → Bytes
without_last [] = []
without_last (c ∷ s) = drop_end (c ∷ without_last s) s

-- The matcher without its brace, an action, and the brace again.
unfoldable pub routed : Bytes → Bytes → Bytes
routed matcher outbound =
    codes ","
    ++ without_last matcher
    ++ codes ",\"action\":\"route\",\"outbound\":\""
    ++ outbound
    ++ codes "\"}"

unfoldable pub hijacked : Bytes → Bytes
hijacked matcher =
    codes ",{\"type\":\"logical\",\"mode\":\"and\",\"rules\":["
    ++ matcher
    ++ codes ","
    ++ dns_matcher_json
    ++ codes "],\"action\":\"hijack-dns\"}"

abbrev pub hijack_dns : Bytes
hijack_dns =
    codes
      ",{\"type\":\"logical\",\"mode\":\"or\",\"rules\":[{\"protocol\":\"dns\"},{\"port\":53}],\"action\":\"hijack-dns\"}"

abbrev pub reject_quic : Bytes
reject_quic =
    codes ",{\"network\":\"udp\",\"port\":443,\"action\":\"reject\",\"method\":\"default\"}"

abbrev pub private_direct : Bytes
private_direct = codes ",{\"ip_is_private\":true,\"action\":\"route\",\"outbound\":\"direct\"}"

abbrev pub app_listed : ConfigOptions → Bool
app_listed o = not (is_empty o.split_tunnel_app_paths)

abbrev pub domain_listed : ConfigOptions → Bool
domain_listed o = not (is_empty o.domain_split_tunnel_domains)

unfoldable pub whitelist_rules : ConfigOptions → Bytes
unfolding routed hijacked
whitelist_rules o =
    let app_whitelist = is o.split_tunnel_mode "whitelist" && app_listed o in
    let domain_whitelist = is o.domain_split_tunnel_mode "whitelist" && domain_listed o in
    reject_quic
    ++ private_direct
    ++ when (is o.split_tunnel_mode "blacklist" && app_listed o)
        (routed (process_matcher_json o) (codes "direct"))
    ++ when (is o.domain_split_tunnel_mode "blacklist" && domain_listed o)
        (routed (domain_matcher_json o) (codes "direct"))
    ++ when app_whitelist (hijacked (process_matcher_json o))
    ++ when domain_whitelist (hijacked (domain_matcher_json o))
    ++ when app_whitelist (routed (process_matcher_json o) (codes "proxy"))
    ++ when domain_whitelist (routed (domain_matcher_json o) (codes "proxy"))

unfoldable pub blacklist_rules : ConfigOptions → Bytes
unfolding routed
blacklist_rules o =
    private_direct
    ++ when (is o.split_tunnel_mode "blacklist" && app_listed o)
        (routed (process_matcher_json o) (codes "direct"))
    ++ when (is o.domain_split_tunnel_mode "blacklist" && domain_listed o)
        (routed (domain_matcher_json o) (codes "direct"))
    ++ hijack_dns
    ++ reject_quic

-- What the function appends.
unfoldable pub append_sing_box_route_rules : ConfigOptions → Bytes
unfolding whitelist_rules blacklist_rules
append_sing_box_route_rules o =
    let has_whitelist =
      is o.split_tunnel_mode "whitelist" || is o.domain_split_tunnel_mode "whitelist" in
    let has_blacklist =
      is o.split_tunnel_mode "blacklist" || is o.domain_split_tunnel_mode "blacklist" in
    codes "{\"action\":\"sniff\"},{\"action\":\"resolve\",\"strategy\":\""
    ++ dns_strategy o.tun_ip_mode
    ++ codes "\"}"
    ++ (if has_whitelist
        then whitelist_rules o
        else if has_blacklist
        then blacklist_rules o
        else hijack_dns ++ reject_quic ++ private_direct)
