-- ===== src/Endpoint/Resolve.antt =====
-- `resolve_sing_box_outbound` and `extract_sing_box_endpoint`.
pub mod Seen
pub mod Leads
pub mod Answers
use entropy_vpn.Base.{
  ℕ, zero, suc, Bool, true, false, not, ◌||◌, ◌&&◌, ◌+◌, List, [], ◌∷◌, Option, none, some, Bytes,
  bytes_eq, if◌then◌else◌, is_empty, map, length,
}
use entropy_vpn.Endpoint.Read.{json_non_empty}
use entropy_vpn.Endpoint.SingBox.{endpoint_from_sing_box_outbound}
use entropy_vpn.Endpoint.Xray.{first_with_server}
use entropy_vpn.Json.Value.{Doubles, Json, is_object, elements}
use entropy_vpn.Profile.{Profile, new_profile}
use entropy_vpn.Tun.Fields.{get}

unfoldable pub is_in : Bytes → List Bytes → Bool
is_in tag [] = false
is_in tag (t ∷ tags) = bytes_eq t tag || is_in tag tags

-- What a call returns, with the set `seen` as it leaves it.
abbrev pub Resolved : Type 0 → Type 0
Resolved N = Option (Json N) × List Bytes

module _ {N : Type 0} where
  abbrev pub or_this : Option (Json N) → Option (Json N) → Option (Json N)
  or_this (some v) here = some v
  or_this none here = here

  -- What `by_tag` has for a tag: the last object with it.
  unfoldable pub find_tag : Bytes → List (Bytes × Json N) → Option (Json N)
  find_tag tag [] = none
  find_tag tag ((t, v) ∷ by_tag) =
      or_this (find_tag tag by_tag) (if bytes_eq t tag then some v else none)

  abbrev pub or_children : Resolved N → (List Bytes → Resolved N) → Resolved N
  or_children (some v, seen) later = (some v, seen)
  or_children (none, seen) later = later seen

  -- The loop over the children.
  unfoldable pub first_resolved :
      (Bytes → List Bytes → Resolved N) → List Bytes → List Bytes → Resolved N
  first_resolved resolve [] seen = (none, seen)
  first_resolved resolve (tag ∷ tags) seen =
      if is_empty tag
      then first_resolved resolve tags seen
      else or_children (resolve tag seen) (first_resolved resolve tags)

module _ {N : Type 0} (D : Doubles N) where
  unfoldable pub has_server : Json N → Bool
  unfolding endpoint_from_sing_box_outbound
  has_server v = not (is_empty (endpoint_from_sing_box_outbound D v).server)

  unfoldable pub child_tags : Json N → List Bytes
  child_tags outbound = map (json_non_empty D) (elements (get outbound "outbounds"))

  -- What is done with the outbound that has the tag.
  unfoldable pub outbound_found :
      (Bytes → List Bytes → Resolved N) → Option (Json N) → List Bytes → Resolved N
  unfolding first_resolved
  outbound_found resolve none seen = (none, seen)
  outbound_found resolve (some outbound) seen =
      if has_server outbound
      then (some outbound, seen)
      else first_resolved resolve (child_tags outbound) seen

  unfoldable pub resolve_sing_box_outbound :
      ℕ → List (Bytes × Json N) → Bytes → List Bytes → Resolved N
  unfolding outbound_found find_tag is_in
  resolve_sing_box_outbound zero by_tag tag seen = (none, seen)
  resolve_sing_box_outbound (suc f) by_tag tag seen =
      if is_in tag seen
      then (none, seen)
      else outbound_found (resolve_sing_box_outbound f by_tag) (find_tag tag by_tag) (tag ∷ seen)

  -- The objects that have a tag, with it.
  unfoldable pub tagged : List (Json N) → List (Bytes × Json N)
  tagged [] = []
  tagged (v ∷ vs) =
      let later = tagged vs in
      let tag = json_non_empty D (get v "tag") in
      if is_object v && not (is_empty tag) then (tag, v) ∷ later else later

  -- Each call that goes on takes a tag of `by_tag` that was not seen.
  unfoldable pub resolve_final : List (Bytes × Json N) → Bytes → Option (Json N)
  unfolding resolve_sing_box_outbound
  resolve_final by_tag tag = (resolve_sing_box_outbound (2 + length by_tag) by_tag tag []).0

  unfoldable pub or_endpoint : Option (Json N) → Profile → Profile
  or_endpoint none fallback = fallback
  or_endpoint (some v) fallback =
      if has_server v then endpoint_from_sing_box_outbound D v else fallback

  unfoldable pub extract_sing_box_endpoint : Json N → Profile
  unfolding resolve_final tagged or_endpoint first_with_server endpoint_from_sing_box_outbound
  extract_sing_box_endpoint root =
      let outbounds = elements (get root "outbounds") in
      let final_tag = json_non_empty D (get (get root "route") "final") in
      let fallback = first_with_server (endpoint_from_sing_box_outbound D) outbounds in
      if is_empty final_tag
      then fallback
      else or_endpoint (resolve_final (tagged outbounds) final_tag) fallback
