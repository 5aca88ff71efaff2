-- ===== src/Config/Routes/WellFormed.antt =====
-- The route rules of sing-box are items of a JSON array.
use entropy_vpn.Base.{
  Bool, true, false, List, [], ◌∷◌, ◌++◌, append_assoc, Bytes, codes, String, ◌≡◌, refl, sym, ap,
  ◌∙◌, All, is_empty, pos, Bool-cases, inl, inr, arith,
}
use entropy_vpn.Config.Fragments.WellFormed.{
  StartsItems, IsValue, IsMembers, next_item, is_name, object-IsValue, append-IsMembers,
  nil-IsMembers, quoted_array-IsValue, json_text,
}
use entropy_vpn.Config.Fragments.{object, member, string_member, when}
use entropy_vpn.Config.Matchers.{
  matcher_object, more_objects, any_of, matcher_objects, collect, Matchers, sorted_unique,
  process_matcher_json, domain_matcher_json, dns_matcher_json,
}
use entropy_vpn.Config.Options.{ConfigOptions}
use entropy_vpn.Config.Routes.Braces.{without_last-append}
use entropy_vpn.Config.Routes.{
  without_last, routed, hijacked, hijack_dns, reject_quic, private_direct,
}
use entropy_vpn.Json.Escape.{json_escape, escape_byte}
use entropy_vpn.Json.Writer.{quoted, quoted_array}
use entropy_vpn.Share.Extract.Output.{array_text-IsValue}
use entropy_vpn.Share.Extract.{array_text, more_texts}
use entropy_vpn.Number.{write_int}

-- Items, each behind a comma, that can stand in front of other items and of the bracket.
abbrev pub IsItems : Bytes → Type 0
IsItems s = (t rest : Bytes) → StartsItems t rest → StartsItems (s ++ t) rest

pub nil-IsItems : IsItems []
nil-IsItems t rest h = h

pub append-IsItems : (s t : Bytes) → IsItems s → IsItems t → IsItems (s ++ t)
append-IsItems s t hs ht u rest h = rw (append_assoc s t u) (hs (t ++ u) rest (ht u rest h))

pub when-IsItems : (b : Bool) (s : Bytes) → (b ≡ true → IsItems s) → IsItems (when b s)
when-IsItems true s h = h refl
when-IsItems false s h = nil-IsItems

item-IsItems : (v : Bytes) → IsValue v → IsItems (b',' ∷ v)
item-IsItems v h t rest more = next_item (h t) more

-- The text is an object with a member at least.
pub record IsObject (s : Bytes) : Type 0 where
  pub key : String
  pub first : Bytes
  pub more : Bytes
  pub key_name : is_name (codes key) ≡ true
  pub first_value : IsValue first
  pub more_members : IsMembers more
  pub text : s ≡ object key first more

pub IsObject-IsValue : (s : Bytes) → IsObject s → IsValue s
IsObject-IsValue s o =
    rw o.text (object-IsValue o.key o.first o.more o.key_name o.first_value o.more_members)

-- More members behind the first ones, in place of the brace.
extended :
    (key : String) (first more tail : Bytes)
    → without_last (object key first more) ++ (tail ++ codes "}") ≡ object key first (more ++ tail)
unfolding object
extended key first more tail =
    let front = codes "{\"" ++ codes key ++ codes "\":" ++ first in
    ap (λ s. s ++ (tail ++ codes "}")) (without_last-append (front ++ more))
    ∙ sym (append_assoc (front ++ more) tail (codes "}"))
    ∙ ap (λ s. s ++ codes "}") (append_assoc front more tail)

abbrev pub action_members : Bytes → Bytes
action_members outbound =
    string_member "action" (codes "route") ++ string_member "outbound" outbound

abbrev pub action_text : Bytes → Bytes
action_text outbound = codes ",\"action\":\"route\",\"outbound\":\"" ++ (outbound ++ codes "\"}")

pub routed-IsItems :
    (matcher outbound : Bytes)
    → IsObject matcher
    → action_text outbound ≡ action_members outbound ++ codes "}"
    → IsItems (routed matcher outbound)
unfolding routed
routed-IsItems matcher outbound o plain =
    let action = codes ",\"action\":\"route\",\"outbound\":\"" in
    let same : without_last matcher ++ action ++ outbound ++ codes "\"}"
        ≡ object o.key o.first (o.more ++ action_members outbound) =
      append_assoc (without_last matcher ++ action) outbound (codes "\"}")
      ∙ append_assoc (without_last matcher) action (outbound ++ codes "\"}")
      ∙ ap (λ s. without_last matcher ++ s) plain
      ∙ ap (λ s. without_last s ++ (action_members outbound ++ codes "}")) o.text
      ∙ extended o.key o.first o.more (action_members outbound) in
    rw same (
      item-IsItems _ (
        object-IsValue o.key o.first (o.more ++ action_members outbound) o.key_name o.first_value (
          append-IsMembers o.more (action_members outbound) o.more_members
            (search json_text depth 12 fits 9000))))

pub direct_plain : action_text (codes "direct") ≡ action_members (codes "direct") ++ codes "}"
unfolding string_member member quoted json_escape escape_byte
direct_plain = refl

pub proxy_plain : action_text (codes "proxy") ≡ action_members (codes "proxy") ++ codes "}"
unfolding string_member member quoted json_escape escape_byte
proxy_plain = refl

-- Members of the rules that the code writes out.
abbrev dns_rules : List Bytes
dns_rules = object "protocol" (quoted (codes "dns")) [] ∷ object "port" (write_int (pos 53)) [] ∷ []

dns_rules-IsValue : IsValue (array_text dns_rules)
dns_rules-IsValue =
    array_text-IsValue dns_rules
      ((search json_text depth 12 fits 9000), ((search json_text depth 12 fits 9000), tt))

abbrev dns_object : Bytes → Bytes
dns_object more =
    object "type" (quoted (codes "logical"))
      (string_member "mode" (codes "or") ++ member "rules" (array_text dns_rules) ++ more)

dns_object-IsValue : (more : Bytes) → IsMembers more → IsValue (dns_object more)
dns_object-IsValue more h = search (json_text, dns_rules-IsValue) depth 14 fits 9000

pub text-IsValue : (s v : Bytes) → s ≡ v → IsValue v → IsValue s
text-IsValue s v e h = rw e h

pub text-IsItems : (s v : Bytes) → s ≡ b',' ∷ v → IsValue v → IsItems s
text-IsItems s v e h = rw e (item-IsItems v h)

pub hijack_dns-IsItems : IsItems hijack_dns
hijack_dns-IsItems =
    text-IsItems hijack_dns (dns_object (string_member "action" (codes "hijack-dns")))
      (unfold object string_member member quoted json_escape escape_byte array_text more_texts
          write_int in
        refl)
      (dns_object-IsValue _ (search json_text depth 12 fits 9000))

abbrev quic_object : Bytes
quic_object = object "network" (quoted (codes "udp")) (
    member "port" (write_int (pos 443))
    ++ string_member "action" (codes "reject")
    ++ string_member "method" (codes "default"))

pub reject_quic-IsItems : IsItems reject_quic
reject_quic-IsItems =
    text-IsItems reject_quic quic_object
      (unfold object string_member member quoted json_escape escape_byte write_int in refl)
      (search json_text depth 14 fits 9000)

pub private_direct-IsItems : IsItems private_direct
private_direct-IsItems =
    text-IsItems private_direct
      (object "ip_is_private" (codes "true") (action_members (codes "direct")))
      (unfold object string_member member quoted json_escape escape_byte in refl)
      (search json_text depth 14 fits 9000)

dns_matcher_json-IsValue : IsValue dns_matcher_json
dns_matcher_json-IsValue =
    let same : dns_matcher_json ≡ dns_object [] =
      unfold object string_member member quoted json_escape escape_byte array_text more_texts
        write_int in
      refl in
    text-IsValue dns_matcher_json (dns_object []) same (dns_object-IsValue [] nil-IsMembers)

pub hijacked-IsItems : (matcher : Bytes) → IsValue matcher → IsItems (hijacked matcher)
hijacked-IsItems matcher h =
    text-IsItems (hijacked matcher)
      (object "type" (quoted (codes "logical")) (
        string_member "mode" (codes "and")
        ++ member "rules" (array_text (matcher ∷ dns_matcher_json ∷ []))
        ++ string_member "action" (codes "hijack-dns")))
      (unfold hijacked object string_member member quoted json_escape escape_byte array_text
          more_texts in
        simp append_assoc)
      (let both =
          array_text-IsValue (matcher ∷ dns_matcher_json ∷ [])
            (h, (dns_matcher_json-IsValue, tt)) in
        search (json_text, both) depth 14 fits 9000)

more_objects_lem : (os : List Bytes) → more_objects os ≡ more_texts os
unfolding more_objects more_texts
more_objects_lem [] = refl
more_objects_lem (o ∷ os) = ap (λ s. b',' ∷ (o ++ s)) (more_objects_lem os)

values_of : (os : List Bytes) → All IsObject os → All IsValue os
values_of [] h = tt
values_of (o ∷ os) h = (IsObject-IsValue o h.0, values_of os h.1)

any_of-IsObject : (os : List Bytes) → is_empty os ≡ false → All IsObject os → IsObject (any_of os)
unfolding any_of
any_of-IsObject [] filled h = let wrong : ⊥ = ground arith in elim wrong [ ]
any_of-IsObject (o ∷ []) filled h = h.0
any_of-IsObject (o ∷ o' ∷ os) filled h = record {
  key = "type";
  first = quoted (codes "logical");
  more = string_member "mode" (codes "or") ++ member "rules" (array_text (o ∷ o' ∷ os));
  key_name = refl;
  first_value = search json_text depth 12 fits 9000;
  more_members =
      let rules = array_text-IsValue (o ∷ o' ∷ os) (values_of (o ∷ o' ∷ os) h) in
      search (json_text, rules) depth 14 fits 9000;
  text = rw (more_objects_lem (o' ∷ os)) (
      unfold object string_member member quoted json_escape escape_byte array_text in
      simp append_assoc);
}

matcher_object-All :
    (key : String) (values others : List Bytes)
    → is_name (codes key) ≡ true
    → All IsObject others
    → All IsObject (matcher_object key values others)
unfolding matcher_object
matcher_object-All key values others name h = elim (Bool-cases (is_empty values)) [
  | inl off ↦ rw off h
  | inr on ↦ rw on (
    record {
      key = key;
      first = quoted_array values;
      more = [];
      key_name = name;
      first_value = quoted_array-IsValue values;
      more_members = nil-IsMembers;
      text = unfold object in simp append_assoc;
    },
    h,
  )
]

processes-All : (m : Matchers) → All IsObject (matcher_objects m)
unfolding matcher_objects
processes-All m = matcher_object-All "process_name" (sorted_unique m.names) _ refl (
    matcher_object-All "process_path" (sorted_unique m.paths) _ refl
      (matcher_object-All "process_path_regex" (sorted_unique m.regexes) [] refl tt))

pub domain_matcher_json-IsObject : (o : ConfigOptions) → IsObject (domain_matcher_json o)
unfolding domain_matcher_json
domain_matcher_json-IsObject o = record {
  key = "domain_suffix";
  first = quoted_array (sorted_unique o.domain_split_tunnel_domains);
  more = [];
  key_name = refl;
  first_value = quoted_array-IsValue _;
  more_members = nil-IsMembers;
  text = unfold object in simp append_assoc;
}

pub process_matcher_json-IsObject :
    (o : ConfigOptions)
    → is_empty (matcher_objects (collect o.split_tunnel_app_paths)) ≡ false
    → IsObject (process_matcher_json o)
unfolding process_matcher_json
process_matcher_json-IsObject o filled =
    any_of-IsObject (matcher_objects (collect o.split_tunnel_app_paths)) filled
      (processes-All (collect o.split_tunnel_app_paths))
