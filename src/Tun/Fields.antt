-- ===== src/Tun/Fields.antt =====
-- Addresses of a TUN inbound: `tun_string_field_values`, `matches_tun_ip_mode`,
-- `filter_ip_family_field`, `apply_tun_ip_mode_to_inbound` and what they call.
use entropy_vpn.Base.{
  Bool, true, not, ◌||◌, List, [], ◌∷◌, Option, none, some, Bytes, codes, String, ◌==◌,
  if◌then◌else◌, is_empty, map,
}
use entropy_vpn.Config.Dns.{tun_addresses}
use entropy_vpn.Json.Value.{
  Doubles, Json, string, array, list_of, items_from, at, set_member, erase, string_value,
}
use entropy_vpn.Share.Words.{is}
use entropy_vpn.Text.{trim, cut_first, contains}

module _ {N : Type 0} where
  -- `at` with a key that the code writes out.
  abbrev pub get : Json N → String → Json N
  get j key = at j (codes key)

  -- `member(key) = value`
  abbrev pub put : String → Json N → Json N → Json N
  put key value j = set_member (codes key) value j

  abbrev pub remove : String → Json N → Json N
  remove key j = erase (codes key) j

  unfoldable pub make_string_array : List Bytes → Json N
  make_string_array values = array (items_from (map string values))

-- The trimmed texts that are not empty.
unfoldable pub trimmed_texts : List Bytes → List Bytes
trimmed_texts [] = []
trimmed_texts (v ∷ values) =
    let later = trimmed_texts values in if is_empty (trim v) then later else trim v ∷ later

abbrev part_or : Bytes → Option (Bytes × Bytes) → Bytes
part_or s none = s
part_or s (some (before, after)) = before

before_slash : Bytes → Bytes
before_slash s = trim (part_or s (cut_first b'/' s))

-- In brackets, where something stands between them.
bracket_host : Bytes → Option (Bytes × Bytes) → Bytes
unfolding before_slash
bracket_host s none = before_slash s
bracket_host s (some ([], after)) = before_slash s
bracket_host s (some (c ∷ inside, after)) = c ∷ inside

address_host : Bytes → Bytes
unfolding bracket_host
address_host [] = []
address_host (c ∷ s) =
    if c == b'[' then bracket_host (c ∷ s) (cut_first b']' s) else before_slash (c ∷ s)

unfoldable pub tun_address_host : Bytes → Bytes
unfolding address_host
tun_address_host value = address_host (trim value)

unfoldable pub is_ipv6_address_like : Bytes → Bool
is_ipv6_address_like value = contains b':' (tun_address_host value)

unfoldable pub matches_tun_ip_mode : Bytes → Bytes → Bool
matches_tun_ip_mode value mode =
    if is mode "ipv6"
    then is_ipv6_address_like value
    else if is mode "dualStack"
    then true
    else not (is_ipv6_address_like value)

unfoldable pub filter_mode : Bytes → List Bytes → List Bytes
filter_mode mode [] = []
filter_mode mode (v ∷ values) =
    let later = filter_mode mode values in if matches_tun_ip_mode v mode then v ∷ later else later

module _ {N : Type 0} (D : Doubles N) where
  unfoldable pub tun_string_field_values : Json N → List Bytes
  tun_string_field_values (string s) = trimmed_texts (s ∷ [])
  tun_string_field_values (array vs) = trimmed_texts (map (string_value D) (list_of vs))
  tun_string_field_values _ = []

  unfoldable pub field_has_selected_ip_family : Json N → Bytes → Bool
  field_has_selected_ip_family value mode =
      not (is_empty (filter_mode mode (tun_string_field_values value)))

  -- One text stays a text; else an array is written.
  unfoldable pub kept_value : Json N → List Bytes → Json N
  kept_value (string s) (v ∷ []) = string v
  kept_value raw filtered = make_string_array filtered

  -- Nothing of the family is left: the fallback, or no field.
  unfoldable pub no_value_left : String → List Bytes → Json N → Json N
  no_value_left field [] target = remove field target
  no_value_left field (v ∷ fallback) target = put field (make_string_array (v ∷ fallback)) target

  unfoldable pub write_filtered : String → List Bytes → List Bytes → Json N → Json N
  unfolding kept_value no_value_left
  write_filtered field fallback [] target = no_value_left field fallback target
  write_filtered field fallback (v ∷ filtered) target =
      put field (kept_value (get target field) (v ∷ filtered)) target

  -- No fallback is the empty list.
  unfoldable pub filter_ip_family_field : String → Bytes → List Bytes → Json N → Json N
  unfolding write_filtered
  filter_ip_family_field field mode fallback target =
      let values = tun_string_field_values (get target field) in
      if is_empty values
      then target
      else write_filtered field fallback (filter_mode mode values) target

  unfoldable pub ensure_tun_address_field : Bytes → Json N → Json N
  ensure_tun_address_field mode inbound =
      if is mode "dualStack" || field_has_selected_ip_family (get inbound "address") mode
      then inbound
      else if field_has_selected_ip_family
          (if is mode "ipv4" then get inbound "inet4_address" else get inbound "inet6_address") mode
      then inbound
      else put "address" (make_string_array (tun_addresses mode)) inbound

  -- The old fields of the other family.
  unfoldable pub remove_legacy : Bytes → Json N → Json N
  remove_legacy mode inbound =
      if is mode "ipv4"
      then remove "inet6_route_exclude_address"
          (remove "inet6_route_address" (remove "inet6_address" inbound))
      else remove "inet4_route_exclude_address"
          (remove "inet4_route_address" (remove "inet4_address" inbound))

  unfoldable pub apply_tun_ip_mode_to_inbound : Bytes → Json N → Json N
  unfolding remove_legacy
  apply_tun_ip_mode_to_inbound mode inbound =
      if is mode "dualStack"
      then ensure_tun_address_field mode inbound
      else ensure_tun_address_field mode (
          remove_legacy mode (
            filter_ip_family_field "route_exclude_address" mode [] (
              filter_ip_family_field "route_address" mode []
                (filter_ip_family_field "address" mode (tun_addresses mode) inbound))))
