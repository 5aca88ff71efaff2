-- ===== src/Config/Routes/Braces.antt =====
-- The brace that is taken off a matcher.
use entropy_vpn.Base.{
  List, [], ◌∷◌, ◌++◌, append_assoc, Bytes, codes, ◌≡◌, refl, ap, All, is_empty, Bool-cases, inl,
  inr, String,
}
use entropy_vpn.Config.Matchers.{
  matcher_object, more_objects, any_of, matcher_objects, collect, Matchers, sorted_unique,
  process_matcher_json, domain_matcher_json,
}
use entropy_vpn.Config.Options.{ConfigOptions}
use entropy_vpn.Config.Routes.{without_last}
use entropy_vpn.Json.Writer.{quoted_array}

-- The last byte is a brace.
abbrev pub EndsInBrace : Bytes → Type 0
EndsInBrace s = without_last s ++ codes "}" ≡ s

pub without_last-append : (s : Bytes) → without_last (s ++ codes "}") ≡ s
unfolding without_last
without_last-append [] = refl
without_last-append (c ∷ []) = refl
without_last-append (c ∷ d ∷ s) = ap (◌∷◌ c) (without_last-append (d ∷ s))

append-EndsInBrace : (s : Bytes) → EndsInBrace (s ++ codes "}")
append-EndsInBrace s = ap (λ t. t ++ codes "}") (without_last-append s)

matcher_object-All :
    (key : String) (values others : List Bytes)
    → All EndsInBrace others
    → All EndsInBrace (matcher_object key values others)
unfolding matcher_object
matcher_object-All key values others h = elim (Bool-cases (is_empty values)) [
  | inl off ↦ rw off h
  | inr on ↦
      rw on (append-EndsInBrace (codes "{\"" ++ codes key ++ codes "\":" ++ quoted_array values), h)
]

any_of-EndsInBrace : (os : List Bytes) → All EndsInBrace os → EndsInBrace (any_of os)
unfolding any_of
any_of-EndsInBrace [] h = unfold without_last in refl
any_of-EndsInBrace (o ∷ []) h = h.0
any_of-EndsInBrace (o ∷ o' ∷ os) h =
    let text =
      codes "{\"type\":\"logical\",\"mode\":\"or\",\"rules\":[" ++ o ++ more_objects (o' ∷ os) in
    rw (← append_assoc text (codes "]") (codes "}")) (append-EndsInBrace (text ++ codes "]"))

processes-EndsInBrace : (m : Matchers) → EndsInBrace (any_of (matcher_objects m))
unfolding matcher_objects
processes-EndsInBrace m =
    let regexes = matcher_object "process_path_regex" (sorted_unique m.regexes) [] in
    let paths = matcher_object "process_path" (sorted_unique m.paths) regexes in
    any_of-EndsInBrace (matcher_object "process_name" (sorted_unique m.names) paths) (
      matcher_object-All "process_name" (sorted_unique m.names) paths (
        matcher_object-All "process_path" (sorted_unique m.paths) regexes
          (matcher_object-All "process_path_regex" (sorted_unique m.regexes) [] tt)))

-- Whatever options are given, process_matcher_json and domain_matcher_json end with a brace, so
-- that taking off the last character takes off just this brace.
pub matcher_json-EndsInBrace :
    (options : ConfigOptions)
    → EndsInBrace (process_matcher_json options) × EndsInBrace (domain_matcher_json options)
unfolding process_matcher_json domain_matcher_json
matcher_json-EndsInBrace options = (
  processes-EndsInBrace (collect options.split_tunnel_app_paths),
  append-EndsInBrace (
      codes "{\"domain_suffix\":"
      ++ quoted_array (sorted_unique options.domain_split_tunnel_domains)),
)
