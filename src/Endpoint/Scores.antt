-- ===== src/Endpoint/Scores.antt =====
-- `config_score_xray` and `config_score_sing_box`: how much a value looks like a configuration.
use entropy_vpn.Base.{ℕ, ◌+◌, List, [], ◌∷◌, codes, String, if◌then◌else◌}
use entropy_vpn.Json.Value.{Json, is_object, elements, contains_key}
use entropy_vpn.Tun.Fields.{get}

module _ {N : Type 0} where
  -- The weight for each of the fields that is there.
  unfoldable pub fields_score : ℕ → List String → Json N → ℕ
  fields_score weight [] j = 0
  fields_score weight (field ∷ fields) j =
      (if contains_key j (codes field) then weight else 0) + fields_score weight fields j

  item_score : String → List String → Json N → ℕ
  unfolding fields_score
  item_score kind fields v =
      if is_object v
      then (if contains_key v (codes kind) then 6 else 0) + fields_score 2 fields v
      else 0

  unfoldable pub items_score : String → List String → List (Json N) → ℕ
  unfolding item_score
  items_score kind fields [] = 0
  items_score kind fields (v ∷ vs) = item_score kind fields v + items_score kind fields vs

  unfoldable pub config_score_xray : Json N → ℕ
  unfolding fields_score items_score
  config_score_xray root =
      let fields =
        "streamSettings" ∷ "sendThrough" ∷ "proxySettings" ∷ "mux" ∷ "targetStrategy" ∷ [] in
      fields_score 3
        ("routing" ∷ "api" ∷ "policy" ∷ "transport" ∷ "stats" ∷ "reverse" ∷ "fakedns" ∷ "metrics"
          ∷ "observatory" ∷ "burstObservatory" ∷ "geodata" ∷ [])
        root
      + fields_score 2 ("rules" ∷ "balancers" ∷ "domainStrategy" ∷ "domainMatcher" ∷ [])
          (get root "routing")
      + items_score "protocol" fields (elements (get root "inbounds"))
      + items_score "protocol" fields (elements (get root "outbounds"))

  unfoldable pub config_score_sing_box : Json N → ℕ
  unfolding fields_score items_score
  config_score_sing_box root =
      let fields = "listen_port" ∷ "server_port" ∷ "tls" ∷ "transport" ∷ "dialer" ∷ [] in
      fields_score 3
        ("route" ∷ "ntp" ∷ "certificate" ∷ "certificate_providers" ∷ "http_clients" ∷ "endpoints"
          ∷ "services" ∷ "experimental" ∷ [])
        root
      + fields_score 2
          ("rules" ∷ "rule_set" ∷ "final" ∷ "auto_detect_interface" ∷ "default_interface"
            ∷ "default_domain_resolver" ∷ [])
          (get root "route")
      + items_score "type" fields (elements (get root "inbounds"))
      + items_score "type" fields (elements (get root "outbounds"))
