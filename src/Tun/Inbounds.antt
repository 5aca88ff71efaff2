-- ===== src/Tun/Inbounds.antt =====
-- The TUN inbounds of a configuration, and the matcher for their tags: `sing_box_tun_inbounds`,
-- `build_tun_inbound_matcher`, `inbound_matcher_tags` and `rule_inbound_matches`.
use entropy_vpn.Base.{
  ℕ, Bool, true, false, not, ◌&&◌, List, [], ◌∷◌, Bytes, ◌==◌, if◌then◌else◌, is_empty, map, length,
  bytes_eq,
}
use entropy_vpn.Config.Matchers.{sorted_unique}
use entropy_vpn.Json.Value.{
  Doubles, Json, null, string, array, is_object, is_null, list_of, string_value,
}
use entropy_vpn.Share.Words.{is}
use entropy_vpn.Text.{trim, lower}
use entropy_vpn.Tun.Fields.{get, make_string_array, trimmed_texts}

-- `operator==` on two vectors of strings.
unfoldable pub texts_eq : List Bytes → List Bytes → Bool
texts_eq [] [] = true
texts_eq (v ∷ vs) (w ∷ ws) = bytes_eq v w && texts_eq vs ws
texts_eq _ _ = false

module _ {N : Type 0} (D : Doubles N) where
  -- `lower(trim(value.string_value()))`
  abbrev pub word_of : Json N → Bytes
  word_of value = lower (trim (string_value D value))

  -- An inbound whose address `sing_box_tun_inbounds` returns.
  unfoldable pub is_tun_inbound : Json N → Bool
  is_tun_inbound inbound = is_object inbound && is (word_of (get inbound "type")) "tun"

  -- The items with a change made at these addresses.
  unfoldable pub update_tun : (Json N → Json N) → List (Json N) → List (Json N)
  update_tun change [] = []
  update_tun change (v ∷ vs) =
      let later = update_tun change vs in if is_tun_inbound v then change v ∷ later else v ∷ later

  -- What stands at these addresses after the change.
  unfoldable pub updated_tun : (Json N → Json N) → List (Json N) → List (Json N)
  updated_tun change [] = []
  updated_tun change (v ∷ vs) =
      let later = updated_tun change vs in if is_tun_inbound v then change v ∷ later else later

  unfoldable pub matcher_of : ℕ → List Bytes → Json N
  matcher_of count [] = null
  matcher_of count (tag ∷ []) = if count == 1 then string tag else null
  matcher_of count (tag ∷ tag' ∷ tags) =
      if length (tag ∷ tag' ∷ tags) == count then make_string_array (tag ∷ tag' ∷ tags) else null

  -- Null, unless every inbound has a tag.
  unfoldable pub build_tun_inbound_matcher : List (Json N) → Json N
  unfolding matcher_of
  build_tun_inbound_matcher inbounds =
      matcher_of (length inbounds)
        (trimmed_texts (map (λ inbound. string_value D (get inbound "tag")) inbounds))

  -- A `std::set` of strings lists them in order, and each once.
  unfoldable pub inbound_matcher_tags : Json N → List Bytes
  inbound_matcher_tags (string s) = sorted_unique (trimmed_texts (s ∷ []))
  inbound_matcher_tags (array vs) =
      sorted_unique (trimmed_texts (map (string_value D) (list_of vs)))
  inbound_matcher_tags _ = []

  unfoldable pub same_tags : List Bytes → List Bytes → Bool
  same_tags rule_tags target_tags =
      not (is_empty rule_tags) && not (is_empty target_tags) && texts_eq rule_tags target_tags

  unfoldable pub rule_inbound_matches : Json N → Json N → Bool
  unfolding same_tags
  rule_inbound_matches rule_inbound inbound_matcher =
      if is_null inbound_matcher
      then is_null rule_inbound
      else if is_null rule_inbound
      then true
      else same_tags (inbound_matcher_tags rule_inbound) (inbound_matcher_tags inbound_matcher)
