-- ===== src/Tun/Family.antt =====
-- The addresses of an inbound after `apply_tun_ip_mode_to_inbound`.
use entropy_vpn.Base.{
  true, false, ◌||◌, List, [], ◌∷◌, Bytes, codes, String, ◌≡◌, inl, inr, refl, ◌∙◌, ap, is_empty,
  if◌then◌else◌, map, All, Bool-cases, bytes_eq, arith,
}
use entropy_vpn.Config.Dns.{tun_addresses}
use entropy_vpn.Json.Value.Laws.{at-set_member, at-set_member_other, at-erase, at-erase_other}
use entropy_vpn.Json.Value.{
  Doubles, Json, null, bool, number, string, array, object, list_of, items_from, string_value,
}
use entropy_vpn.Share.Words.{is}
use entropy_vpn.Text.Trim.{trim-trim}
use entropy_vpn.Text.{trim, cut_first}
use entropy_vpn.Tun.Fields.{
  get, put, remove, make_string_array, trimmed_texts, tun_address_host, is_ipv6_address_like,
  matches_tun_ip_mode, filter_mode, tun_string_field_values, field_has_selected_ip_family,
  kept_value, no_value_left, write_filtered, filter_ip_family_field, ensure_tun_address_field,
  remove_legacy, apply_tun_ip_mode_to_inbound,
}

-- Every address is of the family of the mode.
abbrev pub AllMatch : Bytes → List Bytes → Type 0
AllMatch mode = All (λ v. matches_tun_ip_mode v mode ≡ true)

filter_mode-AllMatch : (mode : Bytes) (vs : List Bytes) → AllMatch mode (filter_mode mode vs)
unfolding filter_mode
filter_mode-AllMatch mode [] = tt
filter_mode-AllMatch mode (v ∷ vs) = elim (Bool-cases (matches_tun_ip_mode v mode)) [
  | inl e ↦ rw e (e, filter_mode-AllMatch mode vs)
  | inr e ↦ rw e (filter_mode-AllMatch mode vs)
]

matches_trimmed : (v mode : Bytes) → matches_tun_ip_mode (trim v) mode ≡ matches_tun_ip_mode v mode
unfolding matches_tun_ip_mode is_ipv6_address_like tun_address_host
matches_trimmed v mode = rw (trim-trim v) refl

trimmed_texts-AllMatch :
    (mode : Bytes) (vs : List Bytes) → AllMatch mode vs → AllMatch mode (trimmed_texts vs)
unfolding trimmed_texts
trimmed_texts-AllMatch mode [] h = tt
trimmed_texts-AllMatch mode (v ∷ vs) h =
    let later = trimmed_texts-AllMatch mode vs h.1 in
    elim (Bool-cases (is_empty (trim v))) [
      | inl e ↦ rw e later
      | inr e ↦ rw e (matches_trimmed v mode ∙ h.0, later)
    ]

tun_addresses-AllMatch :
    (mode : Bytes) → is mode "dualStack" ≡ false → AllMatch mode (tun_addresses mode)
unfolding tun_addresses matches_tun_ip_mode is_ipv6_address_like tun_address_host trim cut_first
tun_addresses-AllMatch mode h = elim (Bool-cases (is mode "ipv6")) [
  | inl e ↦ rw (h, e) (refl, tt)
  | inr e ↦ rw (h, e) (refl, tt)
]

module _ {N : Type 0} (D : Doubles N) (mode : Bytes) where
  -- The same for what stands in a field.
  abbrev pub HasFamily : String → Json N → Type 0
  HasFamily field target = AllMatch mode (tun_string_field_values D (get target field))

  texts_back :
      (vs : List Bytes) → map (string_value D) (list_of (items_from (map Json.string vs))) ≡ vs
  unfolding string_value
  texts_back [] = refl
  texts_back (v ∷ vs) = ap (λ ws. v ∷ ws) (texts_back vs)

  array-AllMatch :
      (vs : List Bytes)
      → AllMatch mode vs
      → AllMatch mode (tun_string_field_values D (make_string_array vs))
  unfolding tun_string_field_values make_string_array
  array-AllMatch vs h = rw (texts_back vs) (trimmed_texts-AllMatch mode vs h)

  kept_value-AllMatch :
      (raw : Json N) (vs : List Bytes)
      → AllMatch mode vs
      → AllMatch mode (tun_string_field_values D (kept_value D raw vs))
  unfolding kept_value
  kept_value-AllMatch (string s) [] h = array-AllMatch [] h
  kept_value-AllMatch (string s) (v ∷ []) h =
      unfold tun_string_field_values in trimmed_texts-AllMatch mode (v ∷ []) h
  kept_value-AllMatch (string s) (v ∷ w ∷ vs) h = array-AllMatch (v ∷ w ∷ vs) h
  kept_value-AllMatch null vs h = array-AllMatch vs h
  kept_value-AllMatch (bool b) vs h = array-AllMatch vs h
  kept_value-AllMatch (number x) vs h = array-AllMatch vs h
  kept_value-AllMatch (array items) vs h = array-AllMatch vs h
  kept_value-AllMatch (object ms) vs h = array-AllMatch vs h

  put-HasFamily :
      (field : String) (value target : Json N)
      → AllMatch mode (tun_string_field_values D value)
      → HasFamily field (put field value target)
  put-HasFamily field value target h = rw (at-set_member (codes field) value target) h

  write_filtered-HasFamily :
      (field : String) (fallback vs : List Bytes) (target : Json N)
      → AllMatch mode fallback
      → AllMatch mode vs
      → HasFamily field (write_filtered D field fallback vs target)
  unfolding write_filtered no_value_left
  write_filtered-HasFamily field [] [] target hf h =
      rw (at-erase (codes field) target) (unfold tun_string_field_values in tt)
  write_filtered-HasFamily field (f ∷ fallback) [] target hf h =
      put-HasFamily field (make_string_array (f ∷ fallback)) target
        (array-AllMatch (f ∷ fallback) hf)
  write_filtered-HasFamily field fallback (v ∷ vs) target hf h =
      put-HasFamily field (kept_value D (get target field) (v ∷ vs)) target
        (kept_value-AllMatch (get target field) (v ∷ vs) h)

  nil-AllMatch : (vs : List Bytes) → is_empty vs ≡ true → AllMatch mode vs
  nil-AllMatch [] h = tt
  nil-AllMatch (v ∷ vs) h = ground arith

  filter-HasFamily :
      (field : String) (fallback : List Bytes) (target : Json N)
      → AllMatch mode fallback
      → HasFamily field (filter_ip_family_field D field mode fallback target)
  unfolding filter_ip_family_field
  filter-HasFamily field fallback target hf =
      let values = tun_string_field_values D (get target field) in
      elim (Bool-cases (is_empty values)) [
        | inl e ↦ rw e (nil-AllMatch values e)
        | inr e ↦ rw e (
            write_filtered-HasFamily field fallback (filter_mode mode values) target hf
              (filter_mode-AllMatch mode values))
      ]

  -- Another field stays as it is.
  filter_other :
      (field other : String) (fallback : List Bytes) (target : Json N)
      → bytes_eq (codes field) (codes other) ≡ false
      → get (filter_ip_family_field D field mode fallback target) other ≡ get target other
  unfolding filter_ip_family_field
  filter_other field other fallback target apart =
      let values = tun_string_field_values D (get target field) in
      elim (Bool-cases (is_empty values)) [
        | inl e ↦ rw e refl
        | inr e ↦ rw e (written fallback (filter_mode mode values))
      ]
    where
      written :
          (fs vs : List Bytes) → get (write_filtered D field fs vs target) other ≡ get target other
      written [] [] =
          unfold write_filtered no_value_left in
          at-erase_other (codes field) (codes other) target apart
      written (f ∷ fs) [] =
          unfold write_filtered no_value_left in
          at-set_member_other (codes field) (codes other) _ target apart
      written fs (v ∷ vs) =
          unfold write_filtered in at-set_member_other (codes field) (codes other) _ target apart

  remove_other :
      (field other : String) (target : Json N)
      → bytes_eq (codes field) (codes other) ≡ false
      → get (remove field target) other ≡ get target other
  remove_other field other target apart = at-erase_other (codes field) (codes other) target apart

  -- None of the old fields.
  abbrev IsNew : String → Type 0
  IsNew field =
      (bytes_eq (codes "inet4_address") (codes field) ≡ false)
      × (bytes_eq (codes "inet4_route_address") (codes field) ≡ false)
      × (bytes_eq (codes "inet4_route_exclude_address") (codes field) ≡ false)
      × (bytes_eq (codes "inet6_address") (codes field) ≡ false)
      × (bytes_eq (codes "inet6_route_address") (codes field) ≡ false)
      × (bytes_eq (codes "inet6_route_exclude_address") (codes field) ≡ false)

  remove_legacy_other :
      (field : String) (target : Json N)
      → IsNew field
      → get (remove_legacy D mode target) field ≡ get target field
  unfolding remove_legacy
  remove_legacy_other field target (a4, b4, c4, a6, b6, c6) = elim (Bool-cases (is mode "ipv4")) [
    | inl e ↦ rw e (
        remove_other "inet6_route_exclude_address" field _ c6
        ∙ remove_other "inet6_route_address" field _ b6
        ∙ remove_other "inet6_address" field target a6)
    | inr e ↦ rw e (
        remove_other "inet4_route_exclude_address" field _ c4
        ∙ remove_other "inet4_route_address" field _ b4
        ∙ remove_other "inet4_address" field target a4)
  ]

  ensure-HasFamily :
      (target : Json N)
      → is mode "dualStack" ≡ false
      → HasFamily "address" target
      → HasFamily "address" (ensure_tun_address_field D mode target)
  unfolding ensure_tun_address_field
  ensure-HasFamily target family h =
      let legacy =
        if is mode "ipv4" then get target "inet4_address" else get target "inet6_address" in
      elim (Bool-cases (field_has_selected_ip_family D (get target "address") mode)) [
        | inl e ↦ rw (family, e) h
        | inr e ↦ elim (Bool-cases (field_has_selected_ip_family D legacy mode)) [
          | inl old ↦ rw (family, e, old) h
          | inr none_left ↦
              rw (family, e, none_left)
                (put-HasFamily "address" (make_string_array (tun_addresses mode)) target
                  (array-AllMatch (tun_addresses mode) (tun_addresses-AllMatch mode family)))
        ]
      ]

  ensure_other :
      (other : String) (target : Json N)
      → bytes_eq (codes "address") (codes other) ≡ false
      → get (ensure_tun_address_field D mode target) other ≡ get target other
  unfolding ensure_tun_address_field
  ensure_other other target apart =
      let legacy =
        if is mode "ipv4" then get target "inet4_address" else get target "inet6_address" in
      elim (Bool-cases
        (is mode "dualStack" || field_has_selected_ip_family D (get target "address") mode)) [
          | inl e ↦ rw e refl
          | inr e ↦ elim (Bool-cases (field_has_selected_ip_family D legacy mode)) [
            | inl old ↦ rw (e, old) refl
            | inr none_left ↦
                rw (e, none_left)
                  (at-set_member_other (codes "address") (codes other) _ target apart)
          ]
        ]

  HasFamily-other :
      (field : String) (target source : Json N)
      → get target field ≡ get source field
      → HasFamily field source
      → HasFamily field target
  HasFamily-other field target source e h = rw e h

  -- In a mode of one IP family, every address that an inbound has in address, route_address and
  -- route_exclude_address after apply_tun_ip_mode_to_inbound is of that family, whatever stood in
  -- these fields.
  pub apply_tun_ip_mode_to_inbound-HasFamily :
      (inbound : Json N)
      → is mode "dualStack" ≡ false
      → HasFamily "address" (apply_tun_ip_mode_to_inbound D mode inbound)
        × HasFamily "route_address" (apply_tun_ip_mode_to_inbound D mode inbound)
        × HasFamily "route_exclude_address" (apply_tun_ip_mode_to_inbound D mode inbound)
  unfolding apply_tun_ip_mode_to_inbound bytes_eq
  apply_tun_ip_mode_to_inbound-HasFamily inbound family =
      let one = filter_ip_family_field D "address" mode (tun_addresses mode) inbound in
      let two = filter_ip_family_field D "route_address" mode [] one in
      let three = filter_ip_family_field D "route_exclude_address" mode [] two in
      let four = remove_legacy D mode three in
      rw family (
        ensure-HasFamily four family (
            HasFamily-other "address" four one
              (remove_legacy_other "address" three (refl, refl, refl, refl, refl, refl)
                ∙ filter_other "route_exclude_address" "address" [] two refl
                ∙ filter_other "route_address" "address" [] one refl)
              (filter-HasFamily "address" (tun_addresses mode) inbound
                (tun_addresses-AllMatch mode family))),
        HasFamily-other "route_address" (ensure_tun_address_field D mode four) two
            (ensure_other "route_address" four refl
              ∙ remove_legacy_other "route_address" three (refl, refl, refl, refl, refl, refl)
              ∙ filter_other "route_exclude_address" "route_address" [] two refl)
            (filter-HasFamily "route_address" [] one tt),
        HasFamily-other "route_exclude_address" (ensure_tun_address_field D mode four) three
            (ensure_other "route_exclude_address" four refl
              ∙ remove_legacy_other "route_exclude_address" three
                  (refl, refl, refl, refl, refl, refl))
            (filter-HasFamily "route_exclude_address" [] two tt),
      )
