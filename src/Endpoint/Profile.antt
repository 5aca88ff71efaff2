-- ===== src/Endpoint/Profile.antt =====
-- `core_config_profile_json`: the profile for a configuration that somebody pastes.
use entropy_vpn.Base.{
  Bool, true, false, ◌==◌, ltb, List, [], ◌∷◌, ◌++◌, Bytes, codes, if◌then◌else◌, drop,
}
use entropy_vpn.Endpoint.Read.{json_non_empty, or_text}
use entropy_vpn.Endpoint.Resolve.{extract_sing_box_endpoint}
use entropy_vpn.Endpoint.Scores.{config_score_xray, config_score_sing_box}
use entropy_vpn.Endpoint.Xray.{extract_xray_endpoint}
use entropy_vpn.Json.Parser.{parse}
use entropy_vpn.Json.Rows.{Field, string_field, int_field, bool_field, array_field, write_object}
use entropy_vpn.Json.Value.{Doubles, Json, is_object}
use entropy_vpn.Profile.{Profile}
use entropy_vpn.Result.{Result, ok, ◌>>=◌}
use entropy_vpn.Text.{trim}
use entropy_vpn.Tun.Fields.{get}

-- The fields of the endpoint, in the order in which they are written.
unfoldable pub endpoint_fields : Profile → Bytes → List (Bytes × Field)
endpoint_fields p remark =
    (codes "protocol", string_field (or_text p.protocol (codes "vless")))
    ∷ (codes "server", string_field p.server)
    ∷ (codes "port", int_field p.port false)
    ∷ (codes "transport", string_field (or_text p.transport (codes "raw")))
    ∷ (codes "tlsMode", string_field (or_text p.tls_mode (codes "none")))
    ∷ (codes "remark", string_field remark)
    ∷ (codes "userId", string_field p.user_id)
    ∷ (codes "password", string_field p.password)
    ∷ (codes "method", string_field p.method)
    ∷ (codes "security", string_field p.security)
    ∷ (codes "alterId", int_field p.alter_id true)
    ∷ (codes "flow", string_field p.flow)
    ∷ (codes "sni", string_field p.sni)
    ∷ (codes "alpn", array_field p.alpn)
    ∷ (codes "host", string_field p.host)
    ∷ (codes "path", string_field p.path)
    ∷ (codes "serviceName", string_field p.service_name)
    ∷ (codes "authority", string_field p.authority)
    ∷ (codes "fingerprint", string_field p.fingerprint)
    ∷ (codes "publicKey", string_field p.public_key)
    ∷ (codes "shortId", string_field p.short_id)
    ∷ (codes "spiderX", string_field p.spider_x)
    ∷ (codes "allowInsecure", bool_field p.allow_insecure)
    ∷ (codes "serverPorts", array_field p.server_ports)
    ∷ (codes "uploadMbps", int_field p.upload_mbps true)
    ∷ (codes "downloadMbps", int_field p.download_mbps true)
    ∷ (codes "hysteriaNetwork", string_field p.hysteria_network)
    ∷ (codes "obfs", string_field p.obfs)
    ∷ (codes "obfsPassword", string_field p.obfs_password)
    ∷ []

-- The configuration itself, under the keys of its core.
unfoldable pub core_fields : Bool → Profile → Bytes → Bytes → List (Bytes × Field)
core_fields true p text directory =
    (codes "singBoxOutboundType", string_field (or_text p.protocol (codes "vless")))
    ∷ (codes "singBoxConfigJson", string_field text)
    ∷ (codes "singBoxConfigDirectory", string_field directory)
    ∷ []
core_fields false p text directory =
    (codes "xrayOutboundProtocol", string_field (or_text p.protocol (codes "vless")))
    ∷ (codes "xrayConfigJson", string_field text)
    ∷ (codes "xrayConfigDirectory", string_field directory)
    ∷ []

-- `text.erase(0, 3)` where the text starts with the first byte of a byte order mark.
unfoldable pub without_mark : Bytes → Bytes
without_mark [] = []
without_mark (c ∷ s) = if c == 239 then drop 3 (c ∷ s) else c ∷ s

unfoldable pub starts_object : Bytes → Bool
starts_object [] = false
starts_object (c ∷ s) = c == b'{'

module _ {N : Type 0} (D : Doubles N) where
  unfoldable pub config_remark : Bool → Json N → Json N → Bytes
  config_remark is_sing_box root options = or_text (json_non_empty D (get options "sourceLabel")) (
      or_text (json_non_empty D (get root "remark")) (
        or_text (json_non_empty D (get root "name")) (
          or_text (json_non_empty D (get options "fallbackLabel"))
            (if is_sing_box then codes "Sing-box config" else codes "Xray config"))))

  unfoldable pub write_core_profile : Bytes → Bool → Json N → Json N → Bytes
  unfolding config_remark endpoint_fields core_fields
  write_core_profile text is_sing_box root options =
      let p =
        if is_sing_box then extract_sing_box_endpoint D root else extract_xray_endpoint D root in
      write_object (
        endpoint_fields p (config_remark is_sing_box root options)
        ++ core_fields is_sing_box p text (json_non_empty D (get options "configDirectory")))

  -- The scores say which core the configuration is for; equal scores say neither.
  unfoldable pub scored_profile : Bytes → Bytes → Json N → Result Bytes
  unfolding write_core_profile
  scored_profile text options_json root =
      let xray_score = config_score_xray root in
      let sing_box_score = config_score_sing_box root in
      if is_object root
      then (if xray_score == sing_box_score then ok [] else do
        options ← parse D options_json
        ok (write_core_profile text (ltb xray_score sing_box_score) root options))
      else ok []

  -- An empty text stands for a text that is no configuration.
  unfoldable pub core_config_profile_json : Bytes → Bytes → Result Bytes
  unfolding scored_profile without_mark starts_object
  core_config_profile_json raw_input options_json =
      let text = without_mark (trim raw_input) in
      if starts_object text
      then (do root ← parse D text; scored_profile text options_json root)
      else ok []
