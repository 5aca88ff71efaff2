-- ===== src/Config/XrayConfig/WellFormed.antt =====
-- The configuration of Xray is JSON.
use entropy_vpn.Base.{
  Bool, true, false, not, ◌||◌, List, [], ◌∷◌, Bytes, ◌≡◌, ap, All, is_empty, if◌then◌else◌,
}
use entropy_vpn.Config.Fragments.WellFormed.{IsValue, IsMembers, Ensures, Ensures-bind, json_text}
use entropy_vpn.Config.Options.{ConfigOptions, is_tun}
use entropy_vpn.Config.Xray.WellFormed.{xray_outbound_json-IsValue}
use entropy_vpn.Config.Xray.{xray_outbound_json, append_xray_domain_rule}
use entropy_vpn.Config.XrayConfig.{
  dns_member, sniffing, accounts, socks_settings, socks_inbound, http_inbound, tun_inbound,
  inbounds, item_if, reject_type, dns_outbound, direct_outbound, block_outbound, outbounds,
  dns_rule, query_rule, quic_rule, rest_rule, domain_mode, rules, routing_member, build_xray_config,
  use_dns_routing,
}
use entropy_vpn.Profile.{Profile}
use entropy_vpn.Share.Extract.{array_text}
use entropy_vpn.Share.Extract.Output.{array_text-IsValue}
use entropy_vpn.Share.Words.{is}

append_xray_domain_rule-IsValue :
    (o : ConfigOptions) (outbound : Bytes) → IsValue (append_xray_domain_rule o outbound)
unfolding append_xray_domain_rule
append_xray_domain_rule-IsValue o outbound = search json_text depth 12 fits 9000

dns_member-IsMembers : (o : ConfigOptions) → IsMembers (dns_member o)
unfolding dns_member
dns_member-IsMembers o = search json_text depth 12 fits 9000

sniffing-IsValue : IsValue sniffing
unfolding sniffing
sniffing-IsValue = search json_text depth 12 fits 9000

accounts-IsValue : (o : ConfigOptions) → IsValue (accounts o)
unfolding accounts
accounts-IsValue o = array_text-IsValue _ ((search json_text depth 12 fits 9000), tt)

if-IsValue : (b : Bool) (s t : Bytes) → IsValue s → IsValue t → IsValue (if b then s else t)
if-IsValue true s t hs ht = hs
if-IsValue false s t hs ht = ht

socks_settings-IsValue : (o : ConfigOptions) → IsValue (socks_settings o)
unfolding socks_settings
socks_settings-IsValue o = search (json_text, if-IsValue, accounts-IsValue) depth 12 fits 9000

socks_inbound-IsValue : (o : ConfigOptions) → IsValue (socks_inbound o)
unfolding socks_inbound
socks_inbound-IsValue o =
    search (json_text, sniffing-IsValue, socks_settings-IsValue) depth 14 fits 9000

http_inbound-IsValue : (o : ConfigOptions) → IsValue (http_inbound o)
unfolding http_inbound
http_inbound-IsValue o = search (json_text, sniffing-IsValue, accounts-IsValue) depth 14 fits 9000

tun_inbound-IsValue : (o : ConfigOptions) → IsValue (tun_inbound o)
unfolding tun_inbound
tun_inbound-IsValue o = search (json_text, sniffing-IsValue) depth 14 fits 9000

if-All :
    (b : Bool) (s t : List Bytes) → All IsValue s → All IsValue t → All IsValue (if b then s else t)
if-All true s t hs ht = hs
if-All false s t hs ht = ht

inbounds-All : (o : ConfigOptions) → All IsValue (inbounds o)
unfolding inbounds
inbounds-All o =
    if-All (is_tun o) _ _ (tun_inbound-IsValue o, tt)
      (socks_inbound-IsValue o, (http_inbound-IsValue o, tt))

item_if-All :
    (b : Bool) (s : Bytes) (later : List Bytes)
    → IsValue s
    → All IsValue later
    → All IsValue (item_if b s later)
item_if-All b s later h hs = if-All b (s ∷ later) later (h, hs) hs

reject_type-IsMembers : (s : Bytes) → IsValue s → IsMembers (reject_type s)
unfolding reject_type
reject_type-IsMembers s h = search (json_text, one_value) depth 14 fits 9000
  where
    one_value : (t : Bytes) → IsValue t → IsValue (array_text (t ∷ []))
    one_value t ht = array_text-IsValue (t ∷ []) (ht, tt)

dns_outbound-IsValue : (o : ConfigOptions) → IsValue (dns_outbound o)
unfolding dns_outbound
dns_outbound-IsValue o = search (json_text, reject_type-IsMembers) depth 14 fits 9000

direct_outbound-IsValue : (o : ConfigOptions) → IsValue (direct_outbound o)
unfolding direct_outbound
direct_outbound-IsValue o = search json_text depth 14 fits 9000

block_outbound-IsValue : IsValue block_outbound
unfolding block_outbound
block_outbound-IsValue = search json_text depth 14 fits 9000

outbounds-All :
    (o : ConfigOptions) (proxy : Bytes) → IsValue proxy → All IsValue (outbounds o proxy)
unfolding outbounds
outbounds-All o proxy h = (
  h,
  item_if-All (use_dns_routing o) _ _ (dns_outbound-IsValue o)
      (direct_outbound-IsValue o, (block_outbound-IsValue, tt)),
)

dns_rule-IsValue : (o : ConfigOptions) → IsValue (dns_rule o)
unfolding dns_rule
dns_rule-IsValue o = search json_text depth 14 fits 9000

query_rule-IsValue : IsValue query_rule
unfolding query_rule
query_rule-IsValue = search json_text depth 14 fits 9000

quic_rule-IsValue : IsValue quic_rule
unfolding quic_rule
quic_rule-IsValue = search json_text depth 14 fits 9000

rest_rule-IsValue : IsValue rest_rule
unfolding rest_rule
rest_rule-IsValue = search json_text depth 14 fits 9000

rules-All : (o : ConfigOptions) → All IsValue (rules o)
unfolding rules
rules-All o = item_if-All (use_dns_routing o) _ _ (dns_rule-IsValue o) (
    item_if-All (is_tun o) _ _ query_rule-IsValue (
      item_if-All (is_tun o) _ _ quic_rule-IsValue (
        item_if-All (domain_mode o "whitelist" || domain_mode o "blacklist") _ _
          (append_xray_domain_rule-IsValue o _)
          (item_if-All (is o.domain_split_tunnel_mode "whitelist") _ _ rest_rule-IsValue tt))))

rules_text-IsValue : (o : ConfigOptions) → IsValue (array_text (rules o))
rules_text-IsValue o = array_text-IsValue (rules o) (rules-All o)

routing_member-IsMembers : (o : ConfigOptions) → IsMembers (routing_member o)
unfolding routing_member
routing_member-IsMembers o = search (json_text, rules_text-IsValue) depth 14 fits 9000

-- For a profile that carries no Xray configuration of its own, a configuration that
-- build_xray_config returns is one JSON value after RFC 8259, whatever the options. Bytes outside
-- ASCII may stand in its strings: that they are UTF-8 is not part of the statement.
pub build_xray_config-IsValue :
    (p : Profile) (options : ConfigOptions)
    → p.xray_config_json ≡ []
    → Ensures IsValue (build_xray_config p options)
unfolding build_xray_config
build_xray_config-IsValue p options e = rw (ap (λ s. not (is_empty s)) e) (
    Ensures-bind IsValue IsValue (xray_outbound_json p options) _
      (xray_outbound_json-IsValue p options)
      (λ proxy h.
        let ins = array_text-IsValue (inbounds options) (inbounds-All options) in
        let outs = array_text-IsValue (outbounds options proxy) (outbounds-All options proxy h) in
        search (json_text, ins, outs, dns_member-IsMembers, routing_member-IsMembers) depth 14 fits
          9000))
