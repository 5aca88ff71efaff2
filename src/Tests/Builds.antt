-- ===== src/Tests/Builds.antt =====
-- A whole configuration.
use entropy_vpn.Base.{[], Bytes, codes, ◌≡◌, refl, bytes_eq}
use entropy_vpn.Config.Fragments.WellFormed.{IsValue, Ensures}
use entropy_vpn.Config.Options.{options_from_json}
use entropy_vpn.Config.Routes.Items.{NoBlank}
use entropy_vpn.Config.SingBoxConfig.WellFormed.{build_core_config-IsValue}
use entropy_vpn.Config.SingBoxConfig.{build_core_config}
use entropy_vpn.Json.Fields.{
  json_string_value, json_string_array_value, value_text, text_after, read_string, array_items,
  read_item,
}
use entropy_vpn.Profile.{profile_from_json}
use entropy_vpn.Tests.Trees.{whole}
use entropy_vpn.Text.{trim, trim_start, strip_prefix, from_first}

abbrev profile_text : Bytes
profile_text =
    codes
      "{\"protocol\":\"vless\",\"server\":\"h\",\"port\":443,\"transport\":\"ws\",\"userId\":\"u\"}"

abbrev options_text : Bytes
options_text =
    codes
      "{\"core\":\"singBox\",\"trafficMode\":\"tun\",\"splitTunnelMode\":\"blacklist\",\"splitTunnelAppPaths\":[\"C:/a.exe\"]}"

no_sing_box : (profile_from_json profile_text).sing_box_config_json ≡ []
unfolding profile_from_json json_string_value value_text text_after read_string strip_prefix
    trim_start bytes_eq
no_sing_box = refl

no_xray : (profile_from_json profile_text).xray_config_json ≡ []
unfolding profile_from_json json_string_value value_text text_after read_string strip_prefix
    trim_start bytes_eq
no_xray = refl

paths-NoBlank : NoBlank (options_from_json options_text).split_tunnel_app_paths
unfolding options_from_json json_string_array_value value_text text_after read_string strip_prefix
    trim_start trim bytes_eq array_items read_item from_first
paths-NoBlank = (refl, tt)

build_core_config-IsValue_example :
    Ensures IsValue (build_core_config whole profile_text options_text)
build_core_config-IsValue_example =
    build_core_config-IsValue whole profile_text options_text no_sing_box no_xray paths-NoBlank
