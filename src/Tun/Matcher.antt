-- ===== src/Tun/Matcher.antt =====
-- A rule that is made for the TUN inbounds matches them.
use entropy_vpn.Base.{
  ℕ, true, false, List, [], ◌∷◌, Bytes, codes, String, ◌==◌, ◌≡◌, ◌⊎◌, inl, inr, refl, ap, ◌∙◌,
  is_empty, length, All, bytes_eq, bytes_eq_iff, Bool-cases,
}
use entropy_vpn.Config.Matchers.Sorted.{sorted_unique-is_empty}
use entropy_vpn.Json.Value.Laws.{at-set_member, at-set_member_other}
use entropy_vpn.Json.Value.{
  Doubles, Json, null, string, is_null, is_object, set_member, string_value,
}
use entropy_vpn.Text.Trim.{trim-trim}
use entropy_vpn.Text.{trim}
use entropy_vpn.Tun.Fields.{get, make_string_array, trimmed_texts}
use entropy_vpn.Tun.Inbounds.{
  texts_eq, matcher_of, build_tun_inbound_matcher, inbound_matcher_tags, same_tags,
  rule_inbound_matches,
}
use entropy_vpn.Tun.Rules.{for_inbound}

-- A text that is trimmed and not empty.
abbrev IsTag : Bytes → Type 0
IsTag s = (trim s ≡ s) × (is_empty s ≡ false)

trimmed_texts-All : (vs : List Bytes) → All IsTag (trimmed_texts vs)
unfolding trimmed_texts
trimmed_texts-All [] = tt
trimmed_texts-All (v ∷ vs) = elim (Bool-cases (is_empty (trim v))) [
  | inl blank ↦ rw blank (trimmed_texts-All vs)
  | inr filled ↦ rw filled ((trim-trim v, filled), trimmed_texts-All vs)
]

tag_filled : (v : Bytes) → IsTag v → is_empty (trim v) ≡ false
tag_filled v (t, filled) = ap (λ s. is_empty s) t ∙ filled

texts_eq_refl : (vs : List Bytes) → texts_eq vs vs ≡ true
unfolding texts_eq
texts_eq_refl [] = refl
texts_eq_refl (v ∷ vs) = rw ((bytes_eq_iff v v).1 refl, texts_eq_refl vs) refl

module _ {N : Type 0} (D : Doubles N) where
  -- Null, or with a tag at least.
  abbrev pub IsMatcher : Json N → Type 0
  IsMatcher m = (m ≡ null) ⊎ ((is_null m ≡ false) × (is_empty (inbound_matcher_tags D m) ≡ false))

  matcher_of-IsMatcher :
      (count : ℕ) (tags : List Bytes) → All IsTag tags → IsMatcher (matcher_of D count tags)
  unfolding matcher_of
  matcher_of-IsMatcher count [] h = inl refl
  matcher_of-IsMatcher count (tag ∷ []) h = elim (Bool-cases (count == 1)) [
    | inl one ↦ rw one (inr (refl, one_tag))
    | inr other ↦ rw other (inl refl)
  ]
    where
      one_tag : is_empty (inbound_matcher_tags D (string tag)) ≡ false
      one_tag =
          unfold inbound_matcher_tags trimmed_texts in
          rw (h.0.0) (rw (h.0.1) (sorted_unique-is_empty tag [] (tag_filled tag h.0)))
  matcher_of-IsMatcher count (tag ∷ tag' ∷ tags) h =
      elim (Bool-cases (length (tag ∷ tag' ∷ tags) == count)) [
        | inl all ↦ rw all (inr (unfold make_string_array in refl, tags_there))
        | inr some_missing ↦ rw some_missing (inl refl)
      ]
    where
      tags_there : is_empty (inbound_matcher_tags D (make_string_array (tag ∷ tag' ∷ tags))) ≡ false
      tags_there =
          unfold inbound_matcher_tags make_string_array trimmed_texts string_value in
          rw (h.0.0) (rw (h.0.1) (sorted_unique-is_empty tag _ (tag_filled tag h.0)))

  pub build_tun_inbound_matcher-IsMatcher :
      (inbounds : List (Json N)) → IsMatcher (build_tun_inbound_matcher D inbounds)
  unfolding build_tun_inbound_matcher
  build_tun_inbound_matcher-IsMatcher inbounds = matcher_of-IsMatcher _ _ (trimmed_texts-All _)

  pub for_inbound_other :
      (m rule : Json N) (key : String)
      → bytes_eq (codes "inbound") (codes key) ≡ false
      → get (for_inbound m rule) key ≡ get rule key
  unfolding for_inbound
  for_inbound_other m rule key h = elim (Bool-cases (is_null m)) [
    | inl none ↦ rw none refl
    | inr given ↦ rw given (at-set_member_other (codes "inbound") (codes key) m rule h)
  ]

  pub for_inbound-is_object :
      (m rule : Json N) → is_object rule ≡ true → is_object (for_inbound m rule) ≡ true
  unfolding for_inbound set_member
  for_inbound-is_object m rule h = elim (Bool-cases (is_null m)) [
    | inl none ↦ rw none h
    | inr given ↦ rw given refl
  ]

  pub for_inbound_matches :
      (m rule : Json N)
      → IsMatcher m
      → get rule "inbound" ≡ null
      → rule_inbound_matches D (get (for_inbound m rule) "inbound") m ≡ true
  unfolding for_inbound rule_inbound_matches
  for_inbound_matches m rule (inl e) h = rw (e, h) refl
  for_inbound_matches m rule (inr (given, tags)) h = rw given (
      rw (at-set_member (codes "inbound") m rule)
        (rw given (matches_itself (inbound_matcher_tags D m) tags)))
    where
      matches_itself : (ts : List Bytes) → is_empty ts ≡ false → same_tags D ts ts ≡ true
      matches_itself ts filled = unfold same_tags in rw (filled, texts_eq_refl ts) refl
