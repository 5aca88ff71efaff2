-- ===== src/Tests/Settings.antt =====
-- The settings of a TUN inbound, and the endpoint of a configuration.
use entropy_vpn.Base.{true, false, [], ◌∷◌, some, codes, ◌≡◌, refl, ℤ, pos, bytes_eq}
use entropy_vpn.Endpoint.Known.{IsKnown, extract_endpoint-IsKnown}
use entropy_vpn.Endpoint.Resolve.{extract_sing_box_endpoint}
use entropy_vpn.Endpoint.Xray.{extract_xray_endpoint}
use entropy_vpn.Json.Value.{
  Json, string, array, object, no_items, item, no_members, entry, at, find_member, items_from,
  string_value,
}
use entropy_vpn.Share.Words.{is}
use entropy_vpn.Tests.Trees.{whole, server_outbound}
use entropy_vpn.Text.{trim, lower}
use entropy_vpn.Tun.Apply.{change_inbound, change_config, apply_native_sing_box_tun_settings}
use entropy_vpn.Tun.Family.{HasFamily, apply_tun_ip_mode_to_inbound-HasFamily}
use entropy_vpn.Tun.Fields.{put, apply_tun_ip_mode_to_inbound}
use entropy_vpn.Tun.Inbounds.{is_tun_inbound, update_tun, updated_tun}
use entropy_vpn.Tun.Result.{
  new_matcher, resolved, HijacksDns, apply_native_sing_box_tun_settings-HijacksDns,
}

abbrev addresses : Json ℤ
addresses =
    array (item (string (codes "10.0.0.1/30")) (item (string (codes "fd00::1/126")) no_items))

abbrev tun_inbound : Json ℤ
tun_inbound = object (
    entry (codes "address") addresses (
      entry (codes "route_address") (string (codes "::/1")) (
        entry (codes "tag") (string (codes "tun-in"))
          (entry (codes "type") (string (codes "tun")) no_members))))

not_dual_stack : is (codes "ipv4") "dualStack" ≡ false
unfolding bytes_eq
not_dual_stack = refl

apply_tun_ip_mode_to_inbound-HasFamily_example :
    HasFamily whole
      (codes "ipv4")
      "address"
      (apply_tun_ip_mode_to_inbound whole (codes "ipv4") tun_inbound)
    × HasFamily whole
        (codes "ipv4")
        "route_address"
        (apply_tun_ip_mode_to_inbound whole (codes "ipv4") tun_inbound)
    × HasFamily whole
        (codes "ipv4")
        "route_exclude_address"
        (apply_tun_ip_mode_to_inbound whole (codes "ipv4") tun_inbound)
apply_tun_ip_mode_to_inbound-HasFamily_example =
    apply_tun_ip_mode_to_inbound-HasFamily whole (codes "ipv4") tun_inbound not_dual_stack

abbrev carried : Json ℤ
carried = object (entry (codes "inbounds") (array (item tun_inbound no_items)) no_members)

-- The change that is made to each inbound.
abbrev change : Json ℤ → Json ℤ
change = change_inbound whole (codes "ipv4") (codes "gvisor") [] (pos 1400) true

abbrev changed : Json ℤ
changed =
    change_config whole (codes "ipv4") true (updated_tun whole change (tun_inbound ∷ []))
      (put "inbounds" (array (items_from (update_tun whole change (tun_inbound ∷ [])))) carried)

settings_run :
    apply_native_sing_box_tun_settings whole carried
      (codes "ipv4")
      (codes "gvisor")
      []
      (pos 1400)
      true
    ≡ some changed
unfolding apply_native_sing_box_tun_settings updated_tun is_tun_inbound at find_member bytes_eq
    string_value trim lower
settings_run = refl

apply_native_sing_box_tun_settings-HijacksDns_example :
    HijacksDns whole
      (new_matcher whole (codes "ipv4") (codes "gvisor") [] (pos 1400) true carried)
      (resolved whole (codes "ipv4") (codes "gvisor") [] (pos 1400) true carried)
      changed
apply_native_sing_box_tun_settings-HijacksDns_example =
    apply_native_sing_box_tun_settings-HijacksDns whole carried (codes "ipv4") (codes "gvisor") []
      (pos 1400) true changed settings_run

abbrev root : Json ℤ
root = object (entry (codes "outbounds") (array (item server_outbound no_items)) no_members)

extract_endpoint-IsKnown_example :
    IsKnown (extract_sing_box_endpoint whole root) × IsKnown (extract_xray_endpoint whole root)
extract_endpoint-IsKnown_example = extract_endpoint-IsKnown whole root
