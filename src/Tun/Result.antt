-- ===== src/Tun/Result.antt =====
-- The route rules of the configuration that `apply_native_sing_box_tun_settings` leaves.
use mathlib.Core.Path.{subst}
use entropy_vpn.Base.{
  Bool, true, List, [], ◌∷◌, none, some, Bytes, codes, ◌≡◌, inl, inr, refl, ◌∙◌, ap, sym, is_empty,
  if◌then◌else◌, Bool-cases, ℤ, arith,
}
use entropy_vpn.Config.Dns.{dns_strategy}
use entropy_vpn.Json.Value.Laws.{at-set_member}
use entropy_vpn.Json.Value.{
  Doubles, Json, null, bool, number, string, array, object, at, list_of, items_from, elements,
}
use entropy_vpn.Text.{trim}
use entropy_vpn.Tun.Apply.{
  apply_dns_strategy, apply_android_route_compatibility, or_object, rules_list, update_rules,
  any_rule, is_hijack_in_loop, hijack_rules, resolve_rules, ensure_resolve_rule_after_sniff,
  ensure_dns_hijack_rule_after_resolve, change_inbound, change_config,
  apply_native_sing_box_tun_settings,
}
use entropy_vpn.Tun.Fields.{get, put}
use entropy_vpn.Tun.Hijack.{any_hijack_rule}
use entropy_vpn.Tun.Insert.{AddsHijack, resolve_rules-acts_on, hijack_rules-AddsHijack}
use entropy_vpn.Tun.Rules.{acts_on}
use entropy_vpn.Tun.Inbounds.{updated_tun, update_tun, build_tun_inbound_matcher}
use entropy_vpn.Tun.Matcher.{build_tun_inbound_matcher-IsMatcher}

list_of-items_from : {N : Type 0} (vs : List (Json N)) → list_of (items_from vs) ≡ vs
list_of-items_from [] = refl
list_of-items_from (v ∷ vs) = ap (λ ws. v ∷ ws) (list_of-items_from vs)

abbrev pub rules_of : {N : Type 0} → Json N → List (Json N)
rules_of config = rules_list (get (get config "route") "rules")

rules_of-update_rules :
    {N : Type 0} (change : List (Json N) → List (Json N)) (config : Json N)
    → rules_of (update_rules change config)
      ≡ change (rules_list (get (or_object (get config "route")) "rules"))
unfolding update_rules
rules_of-update_rules change config =
    let route = or_object (get config "route") in
    let changed = change (rules_list (get route "rules")) in
    let rules = array (items_from changed) in
    ap (λ r. rules_list (get r "rules"))
      (at-set_member (codes "route") (put "rules" rules route) config)
    ∙ ap rules_list (at-set_member (codes "rules") rules route)
    ∙ list_of-items_from changed

or_object-rules :
    {N : Type 0} (j : Json N) → rules_list (get (or_object j) "rules") ≡ rules_list (get j "rules")
unfolding at
or_object-rules null = refl
or_object-rules (bool b) = refl
or_object-rules (number x) = refl
or_object-rules (string s) = refl
or_object-rules (array vs) = refl
or_object-rules (object ms) = refl

rules_of-update :
    {N : Type 0} (change : List (Json N) → List (Json N)) (config : Json N)
    → rules_of (update_rules change config) ≡ change (rules_of config)
rules_of-update change config =
    rules_of-update_rules change config ∙ ap change (or_object-rules (get config "route"))

module _ {N : Type 0} (D : Doubles N) where
  -- The TUN inbounds as the settings leave them, and the matcher for them.
  abbrev pub new_inbounds : Bytes → Bytes → Bytes → ℤ → Bool → Json N → List (Json N)
  new_inbounds mode stack interface_name mtu android config =
      updated_tun D (change_inbound D mode stack (trim interface_name) mtu android)
        (elements (get config "inbounds"))

  abbrev pub new_matcher : Bytes → Bytes → Bytes → ℤ → Bool → Json N → Json N
  new_matcher mode stack interface_name mtu android config =
      build_tun_inbound_matcher D (new_inbounds mode stack interface_name mtu android config)

  -- The configuration as it is before the last change.
  abbrev with_resolve : Bytes → Bool → List (Json N) → Json N → Json N
  with_resolve mode android tun config = ensure_resolve_rule_after_sniff D mode tun (
      apply_dns_strategy mode
        (if android then apply_android_route_compatibility config else config))

  abbrev pub resolved : Bytes → Bytes → Bytes → ℤ → Bool → Json N → Json N
  resolved mode stack interface_name mtu android config =
      with_resolve mode android (new_inbounds mode stack interface_name mtu android config) (
        put "inbounds"
          (array (
            items_from (
              update_tun D (change_inbound D mode stack (trim interface_name) mtu android)
                (elements (get config "inbounds")))))
          config)

  -- What is said of the rules, before and after.
  abbrev pub HijacksDns : Json N → Json N → Json N → Type 0
  HijacksDns m before after =
      (any_rule (is_hijack_in_loop D m) (rules_of after) ≡ true)
      × AddsHijack D m (rules_of before) (rules_of after)

  change_config-HijacksDns :
      (mode : Bytes) (android : Bool) (tun : List (Json N)) (config : Json N)
      → HijacksDns
          (build_tun_inbound_matcher D tun)
          (with_resolve mode android tun config)
          (change_config D mode android tun config)
  unfolding change_config ensure_resolve_rule_after_sniff ensure_dns_hijack_rule_after_resolve
  change_config-HijacksDns mode android tun config =
      let m = build_tun_inbound_matcher D tun in
      let is_matcher = build_tun_inbound_matcher-IsMatcher D tun in
      let dns =
        apply_dns_strategy mode
          (if android then apply_android_route_compatibility config else config) in
      let before = update_rules (resolve_rules D (dns_strategy mode) m) dns in
      let resolves : any_rule (acts_on D "resolve" m) (rules_of before) ≡ true =
        ap (any_rule (acts_on D "resolve" m))
          (rules_of-update (resolve_rules D (dns_strategy mode) m) dns)
        ∙ resolve_rules-acts_on D (dns_strategy mode) m (rules_of dns) is_matcher in
      let after : rules_of (update_rules (hijack_rules D m) before)
          ≡ hijack_rules D m (rules_of before) =
        rules_of-update (hijack_rules D m) before in
      (
        ap (any_rule (is_hijack_in_loop D m)) after
            ∙ any_hijack_rule D m (rules_of before) is_matcher,
        subst (AddsHijack D m (rules_of before)) (sym after)
            (hijack_rules-AddsHijack D m (rules_of before) resolves),
      )

  -- Where apply_native_sing_box_tun_settings changes a configuration, is_dns_hijack_rule finds a
  -- rule of the route in the end. If it found one among the rules as they were before
  -- ensure_dns_hijack_rule_after_resolve, which may be limited by other conditions, these rules stay
  -- as they are; else the general rule (DNS by protocol or by port 53, for the TUN inbounds) is put
  -- directly behind a rule that resolves for these inbounds, and all other rules stay in their
  -- order.
  pub apply_native_sing_box_tun_settings-HijacksDns :
      (config : Json N) (mode stack interface_name : Bytes) (mtu : ℤ) (android : Bool)
      (changed : Json N)
      → apply_native_sing_box_tun_settings D config mode stack interface_name mtu android
        ≡ some changed
      → HijacksDns
          (new_matcher mode stack interface_name mtu android config)
          (resolved mode stack interface_name mtu android config)
          changed
  unfolding apply_native_sing_box_tun_settings
  apply_native_sing_box_tun_settings-HijacksDns config mode stack interface_name mtu android changed
        h =
      let tun = new_inbounds mode stack interface_name mtu android config in
      elim (Bool-cases (is_empty tun)) [
        | inl e ↦ let wrong = rw e at h in ground arith
        | inr e ↦
            let done = rw e at h in
            let one = ap (λ o. elim o [ none ↦ config | some c ↦ c ]) done in
            subst
              (HijacksDns (new_matcher mode stack interface_name mtu android config)
                (resolved mode stack interface_name mtu android config))
              one (change_config-HijacksDns mode android tun _)
      ]
