-- ===== src/Config/Matchers.antt =====
-- The matchers for applications and domains in native/share_link_parser.cpp: the path helpers,
-- `regex_escape`, `sorted_unique`, `process_matcher_json` and `domain_matcher_json`.
pub mod Paths
pub mod Sorted
use entropy_vpn.Base.{
  ℕ, Bool, true, false, ◌&&◌, ◌||◌, List, [], ◌∷◌, ◌++◌, Option, none, some, Bytes, codes, ◌==◌,
  ltb, String, if◌then◌else◌, is_empty, bytes_eq, not,
}
use entropy_vpn.Config.Dns.{looks_ipv4, looks_ipv6}
use entropy_vpn.Config.Options.{ConfigOptions}
use entropy_vpn.Json.Writer.{quoted_array}
use entropy_vpn.Profile.{Profile}
use entropy_vpn.Share.Words.{is}
use entropy_vpn.Text.{lower, trim, or_here}

unfoldable pub tun_route_excludes : Profile → List Bytes
tun_route_excludes profile =
    let server = trim profile.server in
    if looks_ipv6 server
    then (server ++ codes "/128") ∷ []
    else if looks_ipv4 server
    then (server ++ codes "/32") ∷ []
    else []

unfoldable pub route_final : ConfigOptions → Bytes
route_final options =
    if is options.split_tunnel_mode "whitelist" || is options.domain_split_tunnel_mode "whitelist"
    then codes "direct"
    else codes "proxy"

-- `find_last_of`, with the texts before and behind the byte.
unfoldable pub cut_last_of : (ℕ → Bool) → Bytes → Option (Bytes × Bytes)
cut_last_of p [] = none
cut_last_of p (c ∷ s) = or_here (p c) s c (cut_last_of p s)

abbrev pub is_slash : ℕ → Bool
is_slash c = c == 92 || c == b'/'

abbrev behind_or : Bytes → Option (Bytes × Bytes) → Bytes
behind_or whole none = whole
behind_or whole (some (before, after)) = after

abbrev before_or : Bytes → Option (Bytes × Bytes) → Bytes
before_or whole none = whole
before_or whole (some (before, after)) = before

unfoldable pub path_basename : Bytes → Bytes
path_basename path = behind_or path (cut_last_of is_slash path)

unfoldable pub path_dirname : Bytes → Bytes
path_dirname path = before_or [] (cut_last_of is_slash path)

unfoldable pub without_extension : Bytes → Bytes
without_extension value = before_or value (cut_last_of (λ c. c == b'.') value)

-- The characters that a regular expression treats specially.
abbrev pub is_special : ℕ → Bool
is_special c =
    c == 92
    || c == b'.'
    || c == b'^'
    || c == b'$'
    || c == b'|'
    || c == b'?'
    || c == b'*'
    || c == b'+'
    || c == b'('
    || c == b')'
    || c == b'['
    || c == b']'
    || c == b'{'
    || c == b'}'

unfoldable pub regex_escape : Bytes → Bytes
regex_escape [] = []
regex_escape (c ∷ value) =
    let rest = regex_escape value in if is_special c then 92 ∷ c ∷ rest else c ∷ rest

-- `operator<` on strings: unsigned bytes, from the front.
unfoldable pub bytes_lt : Bytes → Bytes → Bool
bytes_lt [] [] = false
bytes_lt [] (y ∷ b) = true
bytes_lt (x ∷ a) [] = false
bytes_lt (x ∷ a) (y ∷ b) = ltb x y || x == y && bytes_lt a b

unfoldable pub keep_filled : List Bytes → List Bytes
keep_filled [] = []
keep_filled (v ∷ values) =
    let rest = keep_filled values in if is_empty (trim v) then rest else v ∷ rest

unfoldable pub insert : Bytes → List Bytes → List Bytes
insert x [] = x ∷ []
insert x (y ∷ ys) = let rest = insert x ys in if bytes_lt y x then y ∷ rest else x ∷ y ∷ ys

-- What `std::sort` returns; equal strings cannot be told apart.
unfoldable pub sort : List Bytes → List Bytes
unfolding insert
sort [] = []
sort (v ∷ values) = insert v (sort values)

abbrev pub keep_new : Bytes → List Bytes → List Bytes
keep_new x [] = x ∷ []
keep_new x (y ∷ ys) = if bytes_eq x y then y ∷ ys else x ∷ y ∷ ys

-- `std::unique`: one of each run of equal strings.
unfoldable pub unique : List Bytes → List Bytes
unique [] = []
unique (v ∷ values) = keep_new v (unique values)

unfoldable pub sorted_unique : List Bytes → List Bytes
unfolding keep_filled sort unique
sorted_unique values = unique (sort (keep_filled values))

-- The three lists that the loop over the paths fills.
pub record Matchers : Type 0 where
  pub names : List Bytes
  pub paths : List Bytes
  pub regexes : List Bytes

abbrev directory_regex : Bytes → Bytes → List Bytes → List Bytes
directory_regex dir path regexes =
    if is_empty dir || bytes_eq dir path
    then regexes
    else (codes "(?i)^" ++ regex_escape dir ++ codes "[\\\\/].+\\.exe$") ∷ regexes

add_path : Bytes → Matchers → Matchers
add_path path later =
    let base = path_basename path in
    let stem = without_extension base in
    record {
      names = base ∷ lower base ∷ stem ∷ lower stem ∷ later.names;
      paths = path ∷ later.paths;
      regexes =
          (codes "(?i)^" ++ regex_escape path ++ codes "$")
          ∷ directory_regex (path_dirname path) path later.regexes;
    }

unfoldable pub collect : List Bytes → Matchers
unfolding add_path
collect [] = record { names = []; paths = []; regexes = [] }
collect (p ∷ app_paths) =
    let path = trim p in
    let later = collect app_paths in if is_empty path then later else add_path path later

-- One object with one list, if the list has an item.
unfoldable pub matcher_object : String → List Bytes → List Bytes → List Bytes
matcher_object key values others =
    if is_empty values
    then others
    else (codes "{\"" ++ codes key ++ codes "\":" ++ quoted_array values ++ codes "}") ∷ others

unfoldable pub more_objects : List Bytes → Bytes
more_objects [] = []
more_objects (o ∷ os) = b',' ∷ (o ++ more_objects os)

unfoldable pub any_of : List Bytes → Bytes
unfolding more_objects
any_of [] = codes "{}"
any_of (o ∷ []) = o
any_of (o ∷ o' ∷ os) =
    codes "{\"type\":\"logical\",\"mode\":\"or\",\"rules\":["
    ++ o
    ++ more_objects (o' ∷ os)
    ++ codes "]}"

unfoldable pub matcher_objects : Matchers → List Bytes
unfolding matcher_object
matcher_objects m = matcher_object "process_name" (sorted_unique m.names) (
    matcher_object "process_path" (sorted_unique m.paths)
      (matcher_object "process_path_regex" (sorted_unique m.regexes) []))

unfoldable pub process_matcher_json : ConfigOptions → Bytes
unfolding matcher_objects collect
process_matcher_json options = any_of (matcher_objects (collect options.split_tunnel_app_paths))

unfoldable pub domain_matcher_json : ConfigOptions → Bytes
domain_matcher_json options =
    codes "{\"domain_suffix\":"
    ++ quoted_array (sorted_unique options.domain_split_tunnel_domains)
    ++ codes "}"

abbrev pub dns_matcher_json : Bytes
dns_matcher_json =
    codes "{\"type\":\"logical\",\"mode\":\"or\",\"rules\":[{\"protocol\":\"dns\"},{\"port\":53}]}"
