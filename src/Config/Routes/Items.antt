-- ===== src/Config/Routes/Items.antt =====
-- What `append_sing_box_route_rules` appends.
use entropy_vpn.Base.{
  Bool, true, false, not, ◌&&◌, ◌||◌, List, [], ◌∷◌, ◌++◌, append_assoc, Bytes, codes, String, ◌≡◌,
  refl, ap, ◌∙◌, All, is_empty, if◌then◌else◌, arith, Bool-cases, inl, inr,
}
use entropy_vpn.Config.Dns.{dns_strategy}
use entropy_vpn.Config.Fragments.WellFormed.{IsValue, array_value, next_item, last_item, json_text}
use entropy_vpn.Config.Fragments.{object, member, string_member, when}
use entropy_vpn.Config.Matchers.{
  matcher_object, matcher_objects, collect, process_matcher_json, domain_matcher_json,
}
use entropy_vpn.Config.Options.{ConfigOptions}
use entropy_vpn.Config.Routes.WellFormed.{
  action_text, action_members, IsItems, append-IsItems, when-IsItems, routed-IsItems, direct_plain,
  proxy_plain, hijack_dns-IsItems, reject_quic-IsItems, private_direct-IsItems, hijacked-IsItems,
  domain_matcher_json-IsObject, process_matcher_json-IsObject, IsObject-IsValue, IsObject,
}
use entropy_vpn.Config.Routes.{
  routed, hijacked, hijack_dns, reject_quic, private_direct, app_listed, whitelist_rules,
  blacklist_rules, append_sing_box_route_rules,
}
use entropy_vpn.Json.Escape.{json_escape, escape_byte}
use entropy_vpn.Json.Writer.{quoted}
use entropy_vpn.Share.Words.{is}
use entropy_vpn.Config.Matchers.Sorted.{sorted_unique-is_empty}
use entropy_vpn.Text.Trim.{trim-trim}
use entropy_vpn.Text.{trim}

-- No path of an application is blank.
abbrev pub NoBlank : List Bytes → Type 0
NoBlank = All (λ p. is_empty (trim p) ≡ false)

-- An object for a list with an item, and those behind it.
matcher_object-filled :
    (key : String) (values others : List Bytes)
    → is_empty values ≡ false
    → is_empty (matcher_object key values others) ≡ false
unfolding matcher_object
matcher_object-filled key values others h = rw h refl

matcher_object-is_empty :
    (key : String) (values others : List Bytes)
    → is_empty others ≡ false
    → is_empty (matcher_object key values others) ≡ false
unfolding matcher_object
matcher_object-is_empty key values others h = elim (Bool-cases (is_empty values)) [
  | inl off ↦ rw off h
  | inr on ↦ rw on refl
]

dns_strategy_plain : (mode : Bytes) → json_escape (dns_strategy mode) ≡ dns_strategy mode
unfolding dns_strategy json_escape escape_byte
dns_strategy_plain mode = elim (Bool-cases (is mode "dualStack")) [
  | inl e ↦ rw e refl
  | inr e ↦ elim (Bool-cases (is mode "ipv6")) [
    | inl e6 ↦ rw (e, e6) refl
    | inr e6 ↦ rw (e, e6) refl
  ]
]

abbrev sniff_object : Bytes
sniff_object = object "action" (quoted (codes "sniff")) []

abbrev resolve_object : Bytes → Bytes
resolve_object strategy =
    object "action" (quoted (codes "resolve")) (string_member "strategy" strategy)

-- The two rules in front, and the others.
rules_array :
    (strategy later : Bytes)
    → json_escape strategy ≡ strategy
    → IsItems later
    → IsValue (
        codes "["
        ++ (codes "{\"action\":\"sniff\"},{\"action\":\"resolve\",\"strategy\":\""
            ++ strategy
            ++ codes "\"}"
            ++ later)
        ++ codes "]")
rules_array strategy later plain h rest =
    let tail = later ++ b']' ∷ rest in
    let sniff : IsValue sniff_object = search json_text depth 12 fits 9000 in
    let resolve : IsValue (resolve_object strategy) = search json_text depth 12 fits 9000 in
    let items =
      array_value (sniff (b',' ∷ (resolve_object strategy ++ tail)))
        (next_item (resolve tail) (h (b']' ∷ rest) rest (last_item rest))) in
    let same : (codes "["
            ++ (codes "{\"action\":\"sniff\"},{\"action\":\"resolve\",\"strategy\":\""
                ++ strategy
                ++ codes "\"}"
                ++ later)
            ++ codes "]")
          ++ rest
        ≡ b'[' ∷ (sniff_object ++ b',' ∷ (resolve_object strategy ++ tail)) =
      unfold object string_member member quoted json_escape escape_byte in
      rw plain (simp append_assoc) in
    rw same items

module _ (o : ConfigOptions) (filled : NoBlank o.split_tunnel_app_paths) where
  paths-filled :
      app_listed o ≡ true → is_empty (matcher_objects (collect o.split_tunnel_app_paths)) ≡ false
  paths-filled listed = first_filled o.split_tunnel_app_paths filled listed
    where
      first_filled :
          (paths : List Bytes)
          → NoBlank paths
          → not (is_empty paths) ≡ true
          → is_empty (matcher_objects (collect paths)) ≡ false
      first_filled [] h listed = ground arith
      first_filled (p ∷ paths) h listed =
          unfold collect matcher_objects in
          rw h.0 (
            matcher_object-is_empty "process_name" _ _ (
              matcher_object-filled "process_path" _ _
                (sorted_unique-is_empty (trim p) _ (ap (λ s. is_empty s) (trim-trim p) ∙ h.0))))

  process_IsObject : app_listed o ≡ true → IsObject (process_matcher_json o)
  process_IsObject listed = process_matcher_json-IsObject o (paths-filled listed)

  second_part : (a b : Bool) → (a && b) ≡ true → b ≡ true
  second_part a b h = ground arith

  process_route :
      (m : Bool) (outbound : Bytes)
      → action_text outbound ≡ action_members outbound ++ codes "}"
      → IsItems (when (m && app_listed o) (routed (process_matcher_json o) outbound))
  process_route m outbound plain =
      when-IsItems (m && app_listed o) (routed (process_matcher_json o) outbound) (λ h.
        routed-IsItems (process_matcher_json o) outbound
          (process_IsObject (second_part m (app_listed o) h)) plain)

  process_dns : (m : Bool) → IsItems (when (m && app_listed o) (hijacked (process_matcher_json o)))
  process_dns m = when-IsItems (m && app_listed o) (hijacked (process_matcher_json o)) (λ h.
      hijacked-IsItems (process_matcher_json o)
        (IsObject-IsValue _ (process_IsObject (second_part m (app_listed o) h))))

  domain_route :
      (b : Bool) (outbound : Bytes)
      → action_text outbound ≡ action_members outbound ++ codes "}"
      → IsItems (when b (routed (domain_matcher_json o) outbound))
  domain_route b outbound plain =
      when-IsItems b (routed (domain_matcher_json o) outbound) (λ h.
        routed-IsItems (domain_matcher_json o) outbound (domain_matcher_json-IsObject o) plain)

  domain_dns : (b : Bool) → IsItems (when b (hijacked (domain_matcher_json o)))
  domain_dns b = when-IsItems b (hijacked (domain_matcher_json o)) (λ h.
      hijacked-IsItems (domain_matcher_json o)
        (IsObject-IsValue _ (domain_matcher_json-IsObject o)))

  ruleset rule_items = (
    append-IsItems, hijack_dns-IsItems, reject_quic-IsItems, private_direct-IsItems, process_route,
    process_dns, domain_route, domain_dns, direct_plain, proxy_plain,
  )

  whitelist_rules-IsItems : IsItems (whitelist_rules o)
  unfolding whitelist_rules
  whitelist_rules-IsItems = search rule_items depth 14 fits 9000

  blacklist_rules-IsItems : IsItems (blacklist_rules o)
  unfolding blacklist_rules
  blacklist_rules-IsItems = search rule_items depth 14 fits 9000

  if-IsItems : (b : Bool) (s t : Bytes) → IsItems s → IsItems t → IsItems (if b then s else t)
  if-IsItems true s t hs ht = hs
  if-IsItems false s t hs ht = ht

  later_rules : Bytes
  later_rules =
      if is o.split_tunnel_mode "whitelist" || is o.domain_split_tunnel_mode "whitelist"
      then whitelist_rules o
      else if is o.split_tunnel_mode "blacklist" || is o.domain_split_tunnel_mode "blacklist"
      then blacklist_rules o
      else hijack_dns ++ reject_quic ++ private_direct

  later_rules-IsItems : IsItems later_rules
  unfolding later_rules
  later_rules-IsItems =
      search (rule_items, if-IsItems, whitelist_rules-IsItems, blacklist_rules-IsItems) depth 14
        fits 9000

  -- With `NoBlank`, the rules are the items of an array.
  pub route_rules-IsValue : IsValue (codes "[" ++ append_sing_box_route_rules o ++ codes "]")
  route_rules-IsValue =
      unfold append_sing_box_route_rules later_rules in
      rules_array (dns_strategy o.tun_ip_mode) later_rules (dns_strategy_plain o.tun_ip_mode)
        later_rules-IsItems
