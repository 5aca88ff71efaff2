-- ===== src/Tun/Rules.antt =====
-- What a route rule is: `field_contains_port`, `rule_matches_dns`, `is_dns_hijack_rule`,
-- `is_generic_resolve_rule`, and the rules that are added.
use entropy_vpn.Base.{
  Bool, true, false, ◌&&◌, ◌||◌, List, [], ◌∷◌, Bytes, codes, String, ◌==◌, if◌then◌else◌, bytes_eq,
  ℤ, pos,
}
use entropy_vpn.Json.Value.{
  Doubles, Json, Items, Members, number, string, array, object, no_items, item, no_members, entry,
  is_object, is_null, members_of,
}
use entropy_vpn.Number.{write_int}
use entropy_vpn.Share.Words.{is}
use entropy_vpn.Text.{trim, lower, pieces}
use entropy_vpn.Tun.Fields.{get, put}
use entropy_vpn.Tun.Inbounds.{word_of, rule_inbound_matches}

-- One of the pieces is this text, trimmed.
unfoldable pub has_piece : Bytes → List Bytes → Bool
has_piece wanted [] = false
has_piece wanted (p ∷ ps) = bytes_eq (trim p) wanted || has_piece wanted ps

abbrev int_eq : ℤ → ℤ → Bool
int_eq (pos m) (pos n) = m == n
int_eq (ℤ.negsuc m) (ℤ.negsuc n) = m == n
int_eq _ _ = false

unfoldable mutual
  unfolding has_piece

  pub field_contains_port : {N : Type 0} → Doubles N → ℤ → Json N → Bool
  field_contains_port D port (number x) = int_eq (D.to_long x) port
  field_contains_port D port (string s) = has_piece (write_int port) (pieces (λ c. c == b',') s)
  field_contains_port D port (array vs) = items_contain_port D port vs
  field_contains_port D port _ = false

  pub items_contain_port : {N : Type 0} → Doubles N → ℤ → Items N → Bool
  items_contain_port D port no_items = false
  items_contain_port D port (item v vs) =
      field_contains_port D port v || items_contain_port D port vs

abbrev any_dns_word : {N : Type 0} → Doubles N → Items N → Bool
any_dns_word D no_items = false
any_dns_word D (item v vs) = is (word_of D v) "dns" || any_dns_word D vs

protocol_is_dns : {N : Type 0} → Doubles N → Json N → Bool
protocol_is_dns D (string s) = is (lower (trim s)) "dns"
protocol_is_dns D (array vs) = any_dns_word D vs
protocol_is_dns D _ = false

-- The test on the rule itself, and the search for its children, which stand under the key `rules`.
unfoldable mutual
  unfolding protocol_is_dns

  pub rule_matches_dns : {N : Type 0} → Doubles N → Json N → Bool
  rule_matches_dns D (object ms) =
      protocol_is_dns D (get (object ms) "protocol")
      || field_contains_port D (pos 53) (get (object ms) "port")
      || children_match_dns D ms
  rule_matches_dns D _ = false

  pub children_match_dns : {N : Type 0} → Doubles N → Members N → Bool
  children_match_dns D no_members = false
  children_match_dns D (entry k v ms) =
      let here = child_matches_dns D v in
      let later = children_match_dns D ms in if is k "rules" then here else later

  pub child_matches_dns : {N : Type 0} → Doubles N → Json N → Bool
  child_matches_dns D (array vs) = any_matches_dns D vs
  child_matches_dns D _ = false

  -- A child that is no object does not match.
  pub any_matches_dns : {N : Type 0} → Doubles N → Items N → Bool
  any_matches_dns D no_items = false
  any_matches_dns D (item v vs) = rule_matches_dns D v || any_matches_dns D vs

-- The keys that a generic resolve rule may have.
abbrev pub is_generic_key : Bytes → Bool
is_generic_key k =
    is k "action"
    || is k "inbound"
    || is k "server"
    || is k "strategy"
    || is k "disable_cache"
    || is k "disable_optimistic_cache"
    || is k "rewrite_ttl"
    || is k "timeout"
    || is k "client_subnet"

module _ {N : Type 0} where
  abbrev empty_object : Json N
  empty_object = object no_members

  -- `if (!inbound_matcher.is_null()) rule.member("inbound") = inbound_matcher`
  unfoldable pub for_inbound : Json N → Json N → Json N
  for_inbound inbound_matcher rule =
      if is_null inbound_matcher then rule else put "inbound" inbound_matcher rule

  -- A rule with one action and nothing else.
  abbrev pub action_rule : String → Json N
  action_rule action = put "action" (string (codes action)) empty_object

module _ {N : Type 0} (D : Doubles N) where
  unfoldable pub is_dns_hijack_rule : Json N → Json N → Bool
  is_dns_hijack_rule rule inbound_matcher =
      is (word_of D (get rule "action")) "hijack-dns"
      && (rule_inbound_matches D (get rule "inbound") inbound_matcher && rule_matches_dns D rule)

  unfoldable pub all_generic : Members N → Bool
  all_generic no_members = true
  all_generic (entry k v ms) = is_generic_key k && all_generic ms

  unfoldable pub is_generic_resolve_rule : Json N → Json N → Bool
  unfolding all_generic
  is_generic_resolve_rule rule inbound_matcher =
      is (word_of D (get rule "action")) "resolve"
      && rule_inbound_matches D (get rule "inbound") inbound_matcher
      && all_generic (members_of rule)

  -- A rule for an action that matches the inbound.
  unfoldable pub acts_on : String → Json N → Json N → Bool
  acts_on action inbound_matcher rule =
      is_object rule
      && is (word_of D (get rule "action")) action
      && rule_inbound_matches D (get rule "inbound") inbound_matcher

  unfoldable pub build_sing_box_dns_matcher_rule : Json N
  build_sing_box_dns_matcher_rule =
      put "rules"
        (array (
          item (put "protocol" (string (codes "dns")) empty_object)
            (item (put "port" (number (D.of_int (pos 53))) empty_object) no_items)))
        (put "mode" (string (codes "or")) (put "type" (string (codes "logical")) empty_object))

  unfoldable pub build_sing_box_dns_hijack_rule : Json N
  unfolding build_sing_box_dns_matcher_rule
  build_sing_box_dns_hijack_rule =
      put "action" (string (codes "hijack-dns")) build_sing_box_dns_matcher_rule
