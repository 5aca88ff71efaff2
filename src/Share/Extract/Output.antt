-- ===== src/Share/Extract/Output.antt =====
-- The text for the links that were found.
use entropy_vpn.Base.{List, [], ◌∷◌, ◌++◌, append_assoc, Bytes, All, Bool-cases, inl, inr}
use entropy_vpn.Config.Fragments.Rows.{to_json-IsValue}
use entropy_vpn.Config.Fragments.WellFormed.{
  StartsItems, last_item, next_item, array_value, empty_array, IsValue,
}
use entropy_vpn.Profile.{Profile}
use entropy_vpn.Result.{Result, ok, err}
use entropy_vpn.Share.Dispatch.{parse_profile}
use entropy_vpn.Share.Extract.{
  seen_in, profile_text, profile_texts, more_texts, array_text, extract_share_links,
  parse_share_links_json,
}

profile_text-All :
    (r : Result Profile) (later : List Bytes)
    → All IsValue later
    → All IsValue (profile_text r later)
profile_text-All (ok p) later h = (to_json-IsValue p, h)
profile_text-All (err m) later h = h

profile_texts-All : (seen links : List Bytes) → All IsValue (profile_texts seen links)
unfolding profile_texts
profile_texts-All seen [] = tt
profile_texts-All seen (link ∷ links) = elim (Bool-cases (seen_in link seen)) [
  | inl again ↦ rw again (profile_texts-All seen links)
  | inr new ↦ rw new (
      profile_text-All (parse_profile link) (profile_texts (link ∷ seen) links)
        (profile_texts-All (link ∷ seen) links))
]

more_texts-StartsItems :
    (texts : List Bytes) (rest : Bytes)
    → All IsValue texts
    → StartsItems (more_texts texts ++ b']' ∷ rest) rest
unfolding more_texts
more_texts-StartsItems [] rest h = last_item rest
more_texts-StartsItems (t ∷ texts) rest h =
    rw (append_assoc t (more_texts texts) (b']' ∷ rest))
      (next_item (h.0 (more_texts texts ++ b']' ∷ rest)) (more_texts-StartsItems texts rest h.1))

pub array_text-IsValue : (texts : List Bytes) → All IsValue texts → IsValue (array_text texts)
unfolding array_text
array_text-IsValue [] h rest = empty_array rest
array_text-IsValue (t ∷ texts) h rest =
    rw
      (
        append_assoc (t ++ more_texts texts) (b']' ∷ []) rest,
        append_assoc t (more_texts texts) (b']' ∷ rest),
      )
      (array_value (h.0 (more_texts texts ++ b']' ∷ rest)) (more_texts-StartsItems texts rest h.1))

-- Whatever text is given, what parse_share_links_json returns is one JSON value after RFC 8259.
-- Bytes outside ASCII may stand in its strings: that they are UTF-8 is not part of the statement.
pub parse_share_links_json-IsValue : (raw : Bytes) → IsValue (parse_share_links_json raw)
unfolding parse_share_links_json
parse_share_links_json-IsValue raw =
    array_text-IsValue _ (profile_texts-All [] (extract_share_links raw))
