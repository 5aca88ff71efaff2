-- ===== src/Tun/Apply.antt =====
-- `apply_native_sing_box_tun_settings` and the functions that it calls in turn.
use entropy_vpn.Base.{
  Bool, true, false, ◌&&◌, ◌||◌, List, [], ◌∷◌, Option, none, some, Bytes, if◌then◌else◌, is_empty,
  ℤ, is_positive,
}
use entropy_vpn.Config.Dns.{dns_strategy}
use entropy_vpn.Json.Value.{
  Doubles, Json, bool, number, string, array, object, no_members, is_object, list_of, items_from,
  elements,
}
use entropy_vpn.Text.{trim}
use entropy_vpn.Tun.Fields.{get, put, remove, apply_tun_ip_mode_to_inbound}
use entropy_vpn.Tun.Inbounds.{update_tun, updated_tun, build_tun_inbound_matcher}
use entropy_vpn.Tun.Rules.{
  is_dns_hijack_rule, is_generic_resolve_rule, acts_on, build_sing_box_dns_hijack_rule, for_inbound,
  action_rule,
}

module _ {N : Type 0} where
  -- What `ensure_map_field` makes of a field: an object.
  abbrev pub or_object : Json N → Json N
  or_object (object ms) = object ms
  or_object _ = object no_members

  -- What `ensure_rules_list` makes of the rules: a list.
  abbrev pub rules_list : Json N → List (Json N)
  rules_list (array vs) = list_of vs
  rules_list (object ms) = object ms ∷ []
  rules_list _ = []

  -- The rules of the route, changed in place; the route and its rules are made where they are missing.
  unfoldable pub update_rules : (List (Json N) → List (Json N)) → Json N → Json N
  update_rules change config =
      let route = or_object (get config "route") in
      put "route" (put "rules" (array (items_from (change (rules_list (get route "rules"))))) route)
        config

  unfoldable pub apply_android_tun_compatibility : Bytes → Json N → Json N
  apply_android_tun_compatibility stack inbound =
      put "stack" (string stack)
        (remove "gso" (remove "strict_route" (remove "interface_name" inbound)))

  unfoldable pub apply_android_route_compatibility : Json N → Json N
  apply_android_route_compatibility config =
      put "route" (put "auto_detect_interface" (bool true) (or_object (get config "route"))) config

  with_strategy : Bytes → Json N → Json N → Json N
  with_strategy mode (object ms) config =
      put "dns" (put "strategy" (string (dns_strategy mode)) (object ms)) config
  with_strategy mode _ config = config

  unfoldable pub apply_dns_strategy : Bytes → Json N → Json N
  unfolding with_strategy
  apply_dns_strategy mode config = with_strategy mode (get config "dns") config

  abbrev pub keep_front : Json N → Option (List (Json N)) → Option (List (Json N))
  keep_front v none = none
  keep_front v (some vs) = some (v ∷ vs)

  -- The rule is inserted behind the first one that passes the test, if there is one.
  unfoldable pub insert_after : (Json N → Bool) → Json N → List (Json N) → Option (List (Json N))
  insert_after test rule [] = none
  insert_after test rule (v ∷ vs) =
      let later = insert_after test rule vs in
      if test v then some (v ∷ rule ∷ vs) else keep_front v later

  -- The first rule that passes the test is changed, if there is one.
  unfoldable pub change_first :
      (Json N → Bool) → (Json N → Json N) → List (Json N) → Option (List (Json N))
  change_first test change [] = none
  change_first test change (v ∷ vs) =
      let later = change_first test change vs in
      if test v then some (change v ∷ vs) else keep_front v later

  abbrev pub or_rules : Option (List (Json N)) → List (Json N) → List (Json N)
  or_rules none rules = rules
  or_rules (some rules) _ = rules

  unfoldable pub any_rule : (Json N → Bool) → List (Json N) → Bool
  any_rule test [] = false
  any_rule test (v ∷ vs) = test v || any_rule test vs

module _ {N : Type 0} (D : Doubles N) where
  abbrev pub is_generic_in_loop : Json N → Json N → Bool
  is_generic_in_loop inbound_matcher rule =
      is_object rule && is_generic_resolve_rule D rule inbound_matcher

  abbrev pub is_hijack_in_loop : Json N → Json N → Bool
  is_hijack_in_loop inbound_matcher rule =
      is_object rule && is_dns_hijack_rule D rule inbound_matcher

  -- The three ways, in their order: a rule is there, a sniff rule is there, or both rules are added.
  unfoldable pub resolve_rules : Bytes → Json N → List (Json N) → List (Json N)
  unfolding insert_after change_first
  resolve_rules strategy inbound_matcher rules =
      let resolve =
        for_inbound inbound_matcher (put "strategy" (string strategy) (action_rule "resolve")) in
      let sniff = for_inbound inbound_matcher (action_rule "sniff") in
      or_rules
        (change_first (is_generic_in_loop inbound_matcher) (put "strategy" (string strategy)) rules)
        (or_rules (insert_after (acts_on D "sniff" inbound_matcher) resolve rules)
          (sniff ∷ resolve ∷ rules))

  unfoldable pub ensure_resolve_rule_after_sniff : Bytes → List (Json N) → Json N → Json N
  unfolding resolve_rules update_rules
  ensure_resolve_rule_after_sniff mode tun_inbounds =
      update_rules (resolve_rules (dns_strategy mode) (build_tun_inbound_matcher D tun_inbounds))

  unfoldable pub hijack_rules : Json N → List (Json N) → List (Json N)
  unfolding insert_after any_rule
  hijack_rules inbound_matcher rules =
      let hijack = for_inbound inbound_matcher (build_sing_box_dns_hijack_rule D) in
      if any_rule (is_hijack_in_loop inbound_matcher) rules
      then rules
      else or_rules (insert_after (acts_on D "resolve" inbound_matcher) hijack rules) (
          or_rules (insert_after (acts_on D "sniff" inbound_matcher) hijack rules) (hijack ∷ rules))

  unfoldable pub ensure_dns_hijack_rule_after_resolve : List (Json N) → Json N → Json N
  unfolding hijack_rules update_rules
  ensure_dns_hijack_rule_after_resolve tun_inbounds =
      update_rules (hijack_rules (build_tun_inbound_matcher D tun_inbounds))

  -- What is done to each TUN inbound.
  unfoldable pub change_inbound : Bytes → Bytes → Bytes → ℤ → Bool → Json N → Json N
  change_inbound mode stack interface mtu android inbound =
      let named =
        if is_empty interface then inbound else put "interface_name" (string interface) inbound in
      let sized = if is_positive mtu then put "mtu" (number (D.of_int mtu)) named else named in
      let compatible = if android then apply_android_tun_compatibility stack sized else sized in
      apply_tun_ip_mode_to_inbound D mode compatible

  -- The changes to the route and to the DNS settings, with the TUN inbounds as they are by then.
  unfoldable pub change_config : Bytes → Bool → List (Json N) → Json N → Json N
  unfolding ensure_resolve_rule_after_sniff ensure_dns_hijack_rule_after_resolve
  change_config mode android tun_inbounds config =
      let routed = if android then apply_android_route_compatibility config else config in
      ensure_dns_hijack_rule_after_resolve tun_inbounds
        (ensure_resolve_rule_after_sniff mode tun_inbounds (apply_dns_strategy mode routed))

  -- Nothing stands for `false`: there is no TUN inbound, and the configuration stays as it is.
  unfoldable pub apply_native_sing_box_tun_settings :
      Json N → Bytes → Bytes → Bytes → ℤ → Bool → Option (Json N)
  unfolding update_tun updated_tun change_inbound change_config
  apply_native_sing_box_tun_settings config mode stack interface_name mtu android =
      let change = change_inbound mode stack (trim interface_name) mtu android in
      let inbounds = elements (get config "inbounds") in
      let tun_inbounds = updated_tun D change inbounds in
      if is_empty tun_inbounds
      then none
      else some (
          change_config mode android tun_inbounds
            (put "inbounds" (array (items_from (update_tun D change inbounds))) config))
