-- ===== src/Tun/Hijack.antt =====
-- The rules of a route after `ensure_resolve_rule_after_sniff` and
-- `ensure_dns_hijack_rule_after_resolve`.
use entropy_vpn.Base.{
  Bool, true, false, ◌||◌, List, [], ◌∷◌, Option, none, some, ◌≡◌, ◌⊎◌, inl, inr, refl, bytes_eq,
  arith, Bool-cases,
}
use entropy_vpn.Config.Matchers.{bytes_lt}
use entropy_vpn.Json.Value.{Doubles, Json, null, is_null, at, find_member, set_member, string_value}
use entropy_vpn.Share.Words.{is}
use entropy_vpn.Text.{trim, lower}
use entropy_vpn.Tun.Apply.{
  keep_front, insert_after, change_first, or_rules, any_rule, is_hijack_in_loop, hijack_rules,
}
use entropy_vpn.Tun.Fields.{get}
use entropy_vpn.Tun.Inbounds.{word_of}
use entropy_vpn.Tun.Matcher.{
  IsMatcher, for_inbound_other, for_inbound-is_object, for_inbound_matches,
}
use entropy_vpn.Tun.Rules.{
  is_dns_hijack_rule, acts_on, build_sing_box_dns_hijack_rule, for_inbound, rule_matches_dns,
  field_contains_port,
}

module _ {N : Type 0} (P : Json N → Bool) where
  -- If there is a result, it holds a rule that passes the test.
  abbrev pub Finds : Option (List (Json N)) → Type 0
  Finds none = Unit
  Finds (some vs) = any_rule P vs ≡ true

  keep_front-Finds :
      (v : Json N) (later : Option (List (Json N)))
      → (P v ≡ true) ⊎ Finds later
      → Finds (keep_front v later)
  unfolding any_rule
  keep_front-Finds v none h = tt
  keep_front-Finds v (some vs) h = ground arith

  -- Rules are inserted, never taken away.
  pub insert_after-Finds :
      (test : Json N → Bool) (rule : Json N) (vs : List (Json N))
      → (P rule || any_rule P vs) ≡ true
      → Finds (insert_after test rule vs)
  unfolding insert_after any_rule
  insert_after-Finds test rule [] h = tt
  insert_after-Finds test rule (v ∷ vs) h = elim (Bool-cases (test v)) [
    | inl hit ↦ rw hit (ground arith)
    | inr miss ↦ elim (Bool-cases (P v)) [
      | inl here ↦ rw miss (keep_front-Finds v (insert_after test rule vs) (inl here))
      | inr other ↦ rw miss (
          keep_front-Finds v (insert_after test rule vs)
            (inr (insert_after-Finds test rule vs (rw other at h))))
    ]
  ]

  pub change_first-Finds :
      (test : Json N → Bool) (change : Json N → Json N) (vs : List (Json N))
      → ((v : Json N) → test v ≡ true → P (change v) ≡ true)
      → Finds (change_first test change vs)
  unfolding change_first any_rule
  change_first-Finds test change [] h = tt
  change_first-Finds test change (v ∷ vs) h = elim (Bool-cases (test v)) [
    | inl hit ↦ rw (hit, h v hit) refl
    | inr miss ↦ rw miss (
        keep_front-Finds v (change_first test change vs)
          (inr (change_first-Finds test change vs h)))
  ]

  pub or_rules-Finds :
      (o : Option (List (Json N))) (rules : List (Json N))
      → Finds o
      → any_rule P rules ≡ true
      → any_rule P (or_rules o rules) ≡ true
  or_rules-Finds none rules h hr = hr
  or_rules-Finds (some vs) rules h hr = h

  pub any_rule-cons :
      (v : Json N) (vs : List (Json N)) → (P v || any_rule P vs) ≡ true → any_rule P (v ∷ vs) ≡ true
  unfolding any_rule
  any_rule-cons v vs h = h

  any_rule-hijack_rules :
      (D : Doubles N) (m : Json N) (rules : List (Json N))
      → (P (for_inbound m (build_sing_box_dns_hijack_rule D)) || any_rule P rules) ≡ true
      → any_rule (is_hijack_in_loop D m) rules ≡ false
      → any_rule P (hijack_rules D m rules) ≡ true
  unfolding hijack_rules
  any_rule-hijack_rules D m rules h off =
      let hijack = for_inbound m (build_sing_box_dns_hijack_rule D) in
      rw off (
        or_rules-Finds (insert_after (acts_on D "resolve" m) hijack rules) _
          (insert_after-Finds (acts_on D "resolve" m) hijack rules h)
          (or_rules-Finds (insert_after (acts_on D "sniff" m) hijack rules) _
            (insert_after-Finds (acts_on D "sniff" m) hijack rules h)
            (any_rule-cons hijack rules h)))

  -- A rule that was there is still there.
  hijack_rules_keep :
      (D : Doubles N) (m : Json N) (rules : List (Json N))
      → any_rule P rules ≡ true
      → any_rule P (hijack_rules D m rules) ≡ true
  hijack_rules_keep D m rules h = elim (Bool-cases (any_rule (is_hijack_in_loop D m) rules)) [
    | inl on ↦ unfold hijack_rules in rw on h
    | inr off ↦ any_rule-hijack_rules D m rules (ground arith) off
  ]

module _ {N : Type 0} (D : Doubles N) where
  hijack_action :
      is (word_of D (get (build_sing_box_dns_hijack_rule D) "action")) "hijack-dns" ≡ true
  unfolding build_sing_box_dns_hijack_rule set_member at find_member bytes_eq bytes_lt string_value
      trim lower
  hijack_action = refl

  hijack_inbound : get (build_sing_box_dns_hijack_rule D) "inbound" ≡ null
  unfolding build_sing_box_dns_hijack_rule set_member at find_member bytes_eq bytes_lt
  hijack_inbound = refl

  hijack-rule_matches_dns :
      (m : Json N) → rule_matches_dns D (for_inbound m (build_sing_box_dns_hijack_rule D)) ≡ true
  unfolding rule_matches_dns for_inbound build_sing_box_dns_hijack_rule set_member at find_member
      bytes_eq bytes_lt string_value trim lower field_contains_port
  hijack-rule_matches_dns m = elim (Bool-cases (is_null m)) [
    | inl none_given ↦ rw none_given refl
    | inr given ↦ rw given refl
  ]

  hijack_in_loop :
      (m : Json N)
      → IsMatcher D m
      → is_hijack_in_loop D m (for_inbound m (build_sing_box_dns_hijack_rule D)) ≡ true
  unfolding is_dns_hijack_rule bytes_eq
  hijack_in_loop m h =
      let base = build_sing_box_dns_hijack_rule D in
      rw (for_inbound-is_object D m base (unfold build_sing_box_dns_hijack_rule set_member in refl))
        (rw (for_inbound_other D m base "action" refl) (
          rw hijack_action
            (rw (for_inbound_matches D m base h hijack_inbound, hijack-rule_matches_dns m) refl)))

  -- A rule for DNS queries is among the rules in the end.
  pub any_hijack_rule :
      (m : Json N) (rules : List (Json N))
      → IsMatcher D m
      → any_rule (is_hijack_in_loop D m) (hijack_rules D m rules) ≡ true
  any_hijack_rule m rules h = elim (Bool-cases (any_rule (is_hijack_in_loop D m) rules)) [
    | inl on ↦ hijack_rules_keep (is_hijack_in_loop D m) D m rules on
    | inr off ↦
        any_rule-hijack_rules (is_hijack_in_loop D m) D m rules (rw (hijack_in_loop m h) refl) off
  ]

  -- A second call of ensure_dns_hijack_rule_after_resolve leaves the route rules as the first one
  -- left them, for an inbound matcher that is null or has a tag: the rule that was added is found
  -- again.
  pub hijack_rules-hijack_rules :
      (m : Json N) (rules : List (Json N))
      → IsMatcher D m
      → hijack_rules D m (hijack_rules D m rules) ≡ hijack_rules D m rules
  hijack_rules-hijack_rules m rules h = settled (hijack_rules D m rules) (any_hijack_rule m rules h)
    where
      settled :
          (vs : List (Json N))
          → any_rule (is_hijack_in_loop D m) vs ≡ true
          → hijack_rules D m vs ≡ vs
      settled vs on = unfold hijack_rules in rw on refl
