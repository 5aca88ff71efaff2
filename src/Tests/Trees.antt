-- ===== src/Tests/Trees.antt =====
-- JSON values, the parser, the rules of a route, and endpoints.
use entropy_vpn.Base.{
  true, false, is_empty, List, [], ◌∷◌, some, Bytes, codes, ◌≡◌, ◌≢◌, refl, ℤ, pos, bytes_eq, inr,
  arith,
}
use entropy_vpn.Config.Matchers.{bytes_lt, sorted_unique}
use entropy_vpn.Endpoint.Read.{json_non_empty}
use entropy_vpn.Endpoint.Resolve.Answers.{resolve_final-Leads}
use entropy_vpn.Endpoint.Resolve.Leads.{Leads, here, through, Leads-resolve_final}
use entropy_vpn.Endpoint.Resolve.{
  is_in, find_tag, first_resolved, has_server, child_tags, outbound_found,
  resolve_sing_box_outbound, resolve_final,
}
use entropy_vpn.Endpoint.SingBox.{endpoint_from_sing_box_outbound}
use entropy_vpn.Json.Escape.{json_escape, escape_byte}
use entropy_vpn.Json.Parser.InTime.{parse-parse_value}
use entropy_vpn.Json.Parser.RoundTrip.{IsPlainJson, parse-serialize}
use entropy_vpn.Json.Parser.{parse_value, parse, out_of_fuel}
use entropy_vpn.Json.Serialize.{serialize}
use entropy_vpn.Json.Value.{
  Doubles, Json, null, bool, number, string, array, object, no_items, item, no_members, entry, at,
  find_member, number_text, string_value,
}
use entropy_vpn.Json.Writer.{quoted}
use entropy_vpn.Number.{parse_int, write_int, write_long}
use entropy_vpn.Result.{ok, err, ◌>>=◌}
use entropy_vpn.Text.{trim, lower, is_some}
use entropy_vpn.Tun.Apply.{hijack_rules}
use entropy_vpn.Tun.Fields.{trimmed_texts}
use entropy_vpn.Tun.Hijack.{hijack_rules-hijack_rules}
use entropy_vpn.Tun.Inbounds.{inbound_matcher_tags}

-- Whole numbers in place of doubles.
abbrev pub whole : Doubles ℤ
whole = record {
  strtod = λ s. parse_int s (pos 0);
  of_int = λ i. i;
  to_long = λ i. i;
  is_long = λ i. true;
  stream = write_long;
}

abbrev tree : Json ℤ
tree = object (
    entry (codes "a")
      (array (item (number (pos 53)) (item (string (codes "x\"y")) (item null no_items))))
      (entry (codes "b") (bool true) no_members))

abbrev tree_text : Bytes
tree_text = codes "{\"a\":[53,\"x\\\"y\",null],\"b\":true}"

serialize_runs : serialize whole tree ≡ tree_text
unfolding serialize number_text write_long write_int quoted json_escape escape_byte
serialize_runs = refl

tree_plain : IsPlainJson whole tree
unfolding number_text write_long write_int parse_int bytes_lt
tree_plain = (
  (
    (omega arith, tt),
    (
      ((λ h. ground arith), (refl, (refl, tt)), refl),
      ((omega arith, (omega arith, (omega arith, tt))), (tt, tt)),
    ),
    ((omega arith, tt), tt, tt),
  ),
  ((refl, tt), (tt, tt)),
)

parse-serialize_example : parse whole (serialize whole tree) ≡ ok tree
parse-serialize_example = parse-serialize whole tree tree_plain

parse-parse_value_example :
    (parse whole tree_text ≡ (parse_value whole 100 tree_text >>= λ p. ok (p.0)))
    × (parse whole tree_text ≢ err out_of_fuel)
parse-parse_value_example = parse-parse_value whole 100 tree_text (omega arith)

abbrev sniff_rule : Json ℤ
sniff_rule = object (entry (codes "action") (string (codes "sniff")) no_members)

tag_there : is_empty (inbound_matcher_tags whole (string (codes "tun-in"))) ≡ false
unfolding inbound_matcher_tags trimmed_texts trim sorted_unique
tag_there = refl

hijack_rules-hijack_rules_example :
    hijack_rules whole
      (string (codes "tun-in"))
      (hijack_rules whole (string (codes "tun-in")) (sniff_rule ∷ []))
    ≡ hijack_rules whole (string (codes "tun-in")) (sniff_rule ∷ [])
hijack_rules-hijack_rules_example =
    hijack_rules-hijack_rules whole (string (codes "tun-in")) (sniff_rule ∷ [])
      (inr (refl, tag_there))

abbrev pub server_outbound : Json ℤ
server_outbound = object (
    entry (codes "server") (string (codes "h")) (
      entry (codes "tag") (string (codes "a"))
        (entry (codes "type") (string (codes "vless")) no_members)))

abbrev group_outbound : Json ℤ
group_outbound = object (
    entry (codes "outbounds")
      (array
        (item (string (codes "g")) (item (string (codes "")) (item (string (codes "a")) no_items))))
      (entry (codes "tag") (string (codes "g"))
        (entry (codes "type") (string (codes "selector")) no_members)))

abbrev by_tag : List (Bytes × Json ℤ)
by_tag = (codes "a", server_outbound) ∷ (codes "g", group_outbound) ∷ []

group-Leads : Leads whole by_tag (codes "g") server_outbound
unfolding find_tag has_server child_tags is_in bytes_eq json_non_empty string_value trim
    endpoint_from_sing_box_outbound at find_member lower
group-Leads =
    through (codes "g") group_outbound (codes "a") server_outbound refl refl refl
      (here (codes "a") server_outbound refl refl)

Leads-resolve_final_example : is_some (resolve_final whole by_tag (codes "g")) ≡ true
Leads-resolve_final_example =
    Leads-resolve_final whole by_tag (codes "g") server_outbound group-Leads

resolve_runs : resolve_final whole by_tag (codes "g") ≡ some server_outbound
unfolding resolve_final resolve_sing_box_outbound outbound_found first_resolved find_tag has_server
    child_tags is_in bytes_eq json_non_empty string_value trim endpoint_from_sing_box_outbound at
    find_member lower
resolve_runs = refl

resolve_final-Leads_example : Leads whole by_tag (codes "g") server_outbound
resolve_final-Leads_example =
    resolve_final-Leads whole by_tag (codes "g") server_outbound resolve_runs
