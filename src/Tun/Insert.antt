-- ===== src/Tun/Insert.antt =====
-- Where `ensure_dns_hijack_rule_after_resolve` puts its rule among the rules that
-- `ensure_resolve_rule_after_sniff` leaves.
use entropy_vpn.Base.{
  Bool, true, false, ◌&&◌, ◌||◌, List, [], ◌∷◌, ◌++◌, some, Bytes, codes, ◌≡◌, ◌⊎◌, inl, inr, refl,
  ap, arith, Bool-cases, bytes_eq, if◌then◌else◌, pos,
}
use entropy_vpn.Config.Matchers.{bytes_lt}
use entropy_vpn.Json.Value.Laws.{at-set_member_other}
use entropy_vpn.Json.Value.{
  Doubles, Json, null, string, number, array, object, no_items, item, no_members, entry, is_null,
  is_object, at, find_member, set_member, string_value,
}
use entropy_vpn.Share.Words.{is}
use entropy_vpn.Text.{trim, lower}
use entropy_vpn.Tun.Apply.{
  keep_front, insert_after, change_first, any_rule, is_generic_in_loop, is_hijack_in_loop,
  resolve_rules, hijack_rules,
}
use entropy_vpn.Tun.Fields.{get, put}
use entropy_vpn.Tun.Hijack.{change_first-Finds, insert_after-Finds, or_rules-Finds}
use entropy_vpn.Tun.Inbounds.{word_of, rule_inbound_matches}
use entropy_vpn.Tun.Matcher.{
  IsMatcher, for_inbound_other, for_inbound-is_object, for_inbound_matches,
}
use entropy_vpn.Tun.Rules.{
  acts_on, is_generic_resolve_rule, for_inbound, action_rule, build_sing_box_dns_hijack_rule,
}

-- The rule stands directly behind one that passes the test, and all else is as it was.
abbrev pub InsertedBehind :
    {N : Type 0} → (Json N → Bool) → Json N → List (Json N) → List (Json N) → Type 0
InsertedBehind {N} test rule rules rules' =
    (before : List (Json N)) × (v : Json N) × (after : List (Json N)) × (test v ≡ true)
    × (rules ≡ before ++ v ∷ after)
    × (rules' ≡ before ++ v ∷ rule ∷ after)

module _ {N : Type 0} where
  insert_after-InsertedBehind :
      (test : Json N → Bool) (rule : Json N) (vs : List (Json N))
      → any_rule test vs ≡ true
      → (ws : List (Json N)) × (insert_after test rule vs ≡ some ws)
        × InsertedBehind test rule vs ws
  unfolding insert_after any_rule
  insert_after-InsertedBehind test rule [] h = absurd (ground arith)
  insert_after-InsertedBehind test rule (v ∷ vs) h = elim (Bool-cases (test v)) [
    | inl hit ↦ (v ∷ rule ∷ vs, rw hit refl, ([], v, vs, hit, refl, refl))
    | inr miss ↦
        let (ws, e, (before, w, after, hit, e1, e2)) =
          insert_after-InsertedBehind test rule vs (rw miss at h) in
        (
          v ∷ ws,
          rw miss (ap (keep_front v) e),
          (v ∷ before, w, after, hit, ap (◌∷◌ v) e1, ap (◌∷◌ v) e2),
        )
  ]

module _ {N : Type 0} (D : Doubles N) where
  generic-acts_on :
      (strategy : Bytes) (m v : Json N)
      → is_generic_in_loop D m v ≡ true
      → acts_on D "resolve" m (put "strategy" (string strategy) v) ≡ true
  unfolding acts_on is_generic_resolve_rule set_member bytes_eq
  generic-acts_on strategy m v h =
      rw
        (
          at-set_member_other (codes "strategy") (codes "action") (string strategy) v
              (unfold bytes_eq in refl),
          at-set_member_other (codes "strategy") (codes "inbound") (string strategy) v
              (unfold bytes_eq in refl),
        )
        (both (is_object v) (is (word_of D (get v "action")) "resolve")
          (rule_inbound_matches D (get v "inbound") m) _ h)
    where
      both : (a b c d : Bool) → (a && (b && c && d)) ≡ true → (true && (b && c)) ≡ true
      both a b c d h = ground arith

  abbrev resolve_rule : Bytes → Json N → Json N
  resolve_rule strategy m = for_inbound m (put "strategy" (string strategy) (action_rule "resolve"))

  resolve_rule-acts_on :
      (strategy : Bytes) (m : Json N)
      → IsMatcher D m
      → acts_on D "resolve" m (resolve_rule strategy m) ≡ true
  unfolding acts_on bytes_eq
  resolve_rule-acts_on strategy m h =
      let base = put "strategy" (string strategy) (action_rule {N = N} "resolve") in
      let action : is (word_of D (get base "action")) "resolve" ≡ true =
        unfold set_member at find_member bytes_eq bytes_lt string_value trim lower in refl in
      let no_inbound : get base "inbound" ≡ null =
        unfold set_member at find_member bytes_eq bytes_lt in refl in
      rw (for_inbound-is_object D m base (unfold set_member in refl)) (
        rw (for_inbound_other D m base "action" refl)
          (rw action (rw (for_inbound_matches D m base h no_inbound) refl)))

  -- Behind `ensure_resolve_rule_after_sniff` there is a rule for `resolve`.
  pub resolve_rules-acts_on :
      (strategy : Bytes) (m : Json N) (rules : List (Json N))
      → IsMatcher D m
      → any_rule (acts_on D "resolve" m) (resolve_rules D strategy m rules) ≡ true
  unfolding resolve_rules any_rule
  resolve_rules-acts_on strategy m rules h =
      let P = acts_on D "resolve" m in
      let new = resolve_rule-acts_on strategy m h in
      or_rules-Finds P
        (change_first (is_generic_in_loop D m) (put "strategy" (string strategy)) rules) _
        (change_first-Finds P (is_generic_in_loop D m) (put "strategy" (string strategy)) rules
          (generic-acts_on strategy m))
        (or_rules-Finds P (insert_after (acts_on D "sniff" m) (resolve_rule strategy m) rules) _
          (insert_after-Finds P (acts_on D "sniff" m) (resolve_rule strategy m) rules (rw new refl))
          (behind (P (for_inbound m (action_rule "sniff"))) _ (any_rule P rules) new))
    where
      behind : (a b c : Bool) → b ≡ true → (a || (b || c)) ≡ true
      behind a b c h = ground arith

  -- What hijacks DNS queries, by protocol and by port, for the inbounds alone if any are named.
  abbrev pub general_hijack_rule : Json N → Json N
  general_hijack_rule m =
      let dns = object (entry (codes "protocol") (string (codes "dns")) no_members) in
      let port = object (entry (codes "port") (number (D.of_int (pos 53))) no_members) in
      let condition = entry (codes "mode") (string (codes "or")) (
        entry (codes "rules") (array (item dns (item port no_items)))
          (entry (codes "type") (string (codes "logical")) no_members)) in
      if is_null m
      then object (entry (codes "action") (string (codes "hijack-dns")) condition)
      else object (
          entry (codes "action") (string (codes "hijack-dns"))
            (entry (codes "inbound") m condition))

  general_hijack_rule-build :
      (m : Json N) → for_inbound m (build_sing_box_dns_hijack_rule D) ≡ general_hijack_rule m
  unfolding for_inbound build_sing_box_dns_hijack_rule set_member bytes_eq bytes_lt
  general_hijack_rule-build m = elim (Bool-cases (is_null m)) [
    | inl none_given ↦ rw none_given refl
    | inr given ↦ rw given refl
  ]

  -- The rules stay if the code finds a rule for DNS queries among them; else the general rule is
  -- put behind a rule for `resolve`.
  abbrev pub AddsHijack : Json N → List (Json N) → List (Json N) → Type 0
  AddsHijack m rules rules' =
      ((any_rule (is_hijack_in_loop D m) rules ≡ true) × (rules' ≡ rules))
      ⊎ ((any_rule (is_hijack_in_loop D m) rules ≡ false)
          × InsertedBehind (acts_on D "resolve" m) (general_hijack_rule m) rules rules')

  pub hijack_rules-AddsHijack :
      (m : Json N) (rules : List (Json N))
      → any_rule (acts_on D "resolve" m) rules ≡ true
      → AddsHijack m rules (hijack_rules D m rules)
  unfolding hijack_rules
  hijack_rules-AddsHijack m rules h = elim (Bool-cases (any_rule (is_hijack_in_loop D m) rules)) [
    | inl on ↦ rw on (inl (refl, refl))
    | inr off ↦
        let (ws, e, inserted) =
          insert_after-InsertedBehind (acts_on D "resolve" m) (general_hijack_rule m) rules h in
        rw off (rw (general_hijack_rule-build m) (rw e (inr (refl, inserted))))
  ]
