-- ===== src/Profile/RoundTrip.antt =====
-- A profile written by `to_json` is read back by `profile_from_json`.
use entropy_vpn.Base.{
  Bool, true, false, ◌||◌, List, [], ◌∷◌, Option, none, some, Bytes, All, Bool-cases, not, ◌&&◌,
  inl, inr, codes, is_empty, ℤ, pos, IsInt, is_zero, bytes_eq, ◌≡◌, ◌≢◌, refl, sym, ◌∙◌, ap, arith,
}
use entropy_vpn.Json.Fields.Search.{IsKey, IsAlnum}
use entropy_vpn.Json.Fields.Strings.{IsShort}
use entropy_vpn.Json.Fields.{json_string_value, json_bool_value, json_string_array_value}
use entropy_vpn.Json.Rows.Lookup.{AreClear, FieldClear}
use entropy_vpn.Json.Rows.Readers.{
  keep, find_field, string_at, HoldsString, json_string_value-write_object, flag_at, HoldsFlag,
  json_bool_value-write_object, items_at, HoldsItems, json_string_array_value-write_object,
}
use entropy_vpn.Json.Rows.{Field, string_field, int_field, bool_field, array_field, field_text}
use entropy_vpn.Number.RoundTrip.{parse_int-write_int}
use entropy_vpn.Number.{parse_int}
use entropy_vpn.Text.{is_alnum}
use entropy_vpn.Profile.{Profile, profile_fields, to_json, or_default, profile_from_json}

-- The keys that are read: those of the fields, and the two that `to_json` never writes.
abbrev pub is_read : Bytes → List (Bytes × Field) → Bool
is_read k [] = bytes_eq k (codes "singBoxConfigJson") || bytes_eq k (codes "xrayConfigJson")
is_read k ((key, field) ∷ fields) = bytes_eq k key || is_read k fields

-- The strings of a field hold short bytes only.
abbrev pub FieldShort : Field → Type 0
FieldShort (string_field v) = All IsShort v
FieldShort (array_field vs) = All (All IsShort) vs
FieldShort (int_field i omit_zero) = IsInt i
FieldShort (bool_field b) = Unit

-- Profiles that `profile_from_json` can tell from their text.
pub record IsPlain (p : Profile) : Type 0 where
  -- No string is taken for a key that is read.
  pub clear :
      (k : Bytes)
      → is_read k (profile_fields p) ≡ true
      → All (λ (f : Bytes × Field). FieldClear k f.1) (profile_fields p)
  pub short : All (λ (f : Bytes × Field). FieldShort f.1) (profile_fields p)
  pub transport_ne_nil : p.transport ≢ []
  pub tls_mode_ne_nil : p.tls_mode ≢ []
  pub no_sing_box : p.sing_box_config_json ≡ []
  pub no_xray : p.xray_config_json ≡ []

string_at-keep :
    (v : Bytes) → string_at (keep (string_field v) (field_text (string_field v)) none) ≡ v
unfolding field_text
string_at-keep [] = refl
string_at-keep (c ∷ v) = refl

parse_int-keep :
    (i : ℤ) (omit_zero : Bool)
    → IsInt i
    → parse_int
        (string_at (keep (int_field i omit_zero) (field_text (int_field i omit_zero)) none))
        (pos 0)
      ≡ i
unfolding field_text
parse_int-keep i true h = elim (Bool-cases (is_zero i)) [
  | inl zero ↦ rw zero (unfold parse_int in ground arith)
  | inr other ↦ rw other (parse_int-write_int i (pos 0) h)
]
parse_int-keep i false h = parse_int-write_int i (pos 0) h

flag_at-keep : (b : Bool) → flag_at (keep (bool_field b) (field_text (bool_field b)) none) ≡ b
unfolding field_text
flag_at-keep true = refl
flag_at-keep false = refl

items_at-keep :
    (vs : List Bytes) → items_at (keep (array_field vs) (field_text (array_field vs)) none) ≡ vs
unfolding field_text
items_at-keep [] = refl
items_at-keep (v ∷ vs) = refl

abbrev all_alnum : Bytes → Bool
all_alnum [] = true
all_alnum (c ∷ k) = is_alnum c && all_alnum k

abbrev is_key : Bytes → Bool
is_key k = not (is_empty k) && all_alnum k

IsAlnum-all_alnum : (k : Bytes) → all_alnum k ≡ true → IsAlnum k
IsAlnum-all_alnum [] h = tt
IsAlnum-all_alnum (c ∷ k) h = ground (arith, IsAlnum-all_alnum k)

IsKey-is_key : (k : Bytes) → is_key k ≡ true → IsKey k
IsKey-is_key [] h = cc
IsKey-is_key (c ∷ k) h = (cc, IsAlnum-all_alnum (c ∷ k) h)

abbrev are_keys : List (Bytes × Field) → Bool
are_keys [] = true
are_keys ((key, field) ∷ fields) = is_key key && are_keys fields

All-are_keys :
    (fields : List (Bytes × Field))
    → are_keys fields ≡ true
    → All (λ (f : Bytes × Field). IsKey f.0) fields
All-are_keys [] h = tt
All-are_keys ((key, field) ∷ fields) h =
    let split : (is_key key ≡ true) × (are_keys fields ≡ true) = ground arith in
    (IsKey-is_key key split.0, All-are_keys fields split.1)

AreClear-intro :
    (k : Bytes) (fields : List (Bytes × Field))
    → All (λ (f : Bytes × Field). IsKey f.0) fields
    → All (λ (f : Bytes × Field). FieldClear k f.1) fields
    → AreClear k fields
AreClear-intro k [] h c = tt
AreClear-intro k (f ∷ fields) h c = ((h.0, c.0), AreClear-intro k fields h.1 c.1)

abbrev OptionShort : Option Field → Type 0
OptionShort none = Unit
OptionShort (some f) = FieldShort f

find_field-OptionShort :
    (k : Bytes) (fields : List (Bytes × Field))
    → All (λ (f : Bytes × Field). FieldShort f.1) fields
    → OptionShort (find_field k fields)
unfolding find_field
find_field-OptionShort k [] h = tt
find_field-OptionShort k ((key, field) ∷ fields) h = elim (Bool-cases (bytes_eq key k)) [
  | inl same ↦ rw same (kept (field_text field) (find_field-OptionShort k fields h.1))
  | inr other ↦ rw other (find_field-OptionShort k fields h.1)
]
  where
    kept :
        (t : Option Bytes)
        → OptionShort (find_field k fields)
        → OptionShort (keep field t (find_field k fields))
    kept none later = later
    kept (some value) later = h.0

HoldsString-string :
    (v : Bytes) (f : Option Field)
    → f ≡ keep (string_field v) (field_text (string_field v)) none
    → OptionShort f
    → HoldsString f
unfolding field_text
HoldsString-string [] f e h = rw e tt
HoldsString-string (c ∷ v) f e h = rw e (rw e at h)

HoldsString-int :
    (i : ℤ) (omit_zero : Bool) (f : Option Field)
    → f ≡ keep (int_field i omit_zero) (field_text (int_field i omit_zero)) none
    → HoldsString f
unfolding field_text
HoldsString-int i omit_zero f e = elim (Bool-cases (omit_zero && is_zero i)) [
  | inl out ↦ rw (e, out) tt
  | inr written ↦ rw (e, written) tt
]

HoldsFlag-bool :
    (b : Bool) (f : Option Field)
    → f ≡ keep (bool_field b) (field_text (bool_field b)) none
    → HoldsFlag f
unfolding field_text
HoldsFlag-bool true f e = rw e tt
HoldsFlag-bool false f e = rw e tt

HoldsItems-array :
    (vs : List Bytes) (f : Option Field)
    → f ≡ keep (array_field vs) (field_text (array_field vs)) none
    → OptionShort f
    → HoldsItems f
unfolding field_text
HoldsItems-array [] f e h = rw e tt
HoldsItems-array (v ∷ vs) f e h = rw e (rw e at h)

module _ (p : Profile) (h : IsPlain p) where
  AreClear-profile_fields :
      (k : Bytes) → is_read k (profile_fields p) ≡ true → AreClear k (profile_fields p)
  AreClear-profile_fields k r =
      AreClear-intro k (profile_fields p) (All-are_keys (profile_fields p) refl) (h.clear k r)

  module _ (k : Bytes) (key : is_key k ≡ true) (r : is_read k (profile_fields p) ≡ true) where
    read_string_field :
        (v : Bytes)
        → find_field k (profile_fields p) ≡ keep (string_field v) (field_text (string_field v)) none
        → json_string_value (to_json p) k ≡ v
    unfolding to_json
    read_string_field v e =
        json_string_value-write_object k (profile_fields p) (IsKey-is_key k key)
          (AreClear-profile_fields k r)
          (HoldsString-string v _ e (find_field-OptionShort k (profile_fields p) h.short))
        ∙ ap string_at e
        ∙ string_at-keep v

    read_int_field :
        (i : ℤ) (omit_zero : Bool)
        → find_field k (profile_fields p)
          ≡ keep (int_field i omit_zero) (field_text (int_field i omit_zero)) none
        → IsInt i
        → parse_int (json_string_value (to_json p) k) (pos 0) ≡ i
    unfolding to_json
    read_int_field i omit_zero e hi =
        ap (λ t. parse_int t (pos 0))
          (json_string_value-write_object k (profile_fields p) (IsKey-is_key k key)
              (AreClear-profile_fields k r) (HoldsString-int i omit_zero _ e)
            ∙ ap string_at e)
        ∙ parse_int-keep i omit_zero hi

    read_no_field : find_field k (profile_fields p) ≡ none → json_string_value (to_json p) k ≡ []
    unfolding to_json
    read_no_field e =
        json_string_value-write_object k (profile_fields p) (IsKey-is_key k key)
          (AreClear-profile_fields k r) (rw e tt)
        ∙ ap string_at e

    read_bool_field :
        (b : Bool)
        → find_field k (profile_fields p) ≡ keep (bool_field b) (field_text (bool_field b)) none
        → json_bool_value (to_json p) k ≡ b
    unfolding to_json
    read_bool_field b e =
        json_bool_value-write_object k (profile_fields p) (IsKey-is_key k key)
          (AreClear-profile_fields k r) (HoldsFlag-bool b _ e)
        ∙ ap flag_at e
        ∙ flag_at-keep b

    read_array_field :
        (vs : List Bytes)
        → find_field k (profile_fields p) ≡ keep (array_field vs) (field_text (array_field vs)) none
        → json_string_array_value (to_json p) k ≡ vs
    unfolding to_json
    read_array_field vs e =
        json_string_array_value-write_object k (profile_fields p) (IsKey-is_key k key)
          (AreClear-profile_fields k r)
          (HoldsItems-array vs _ e (find_field-OptionShort k (profile_fields p) h.short))
        ∙ ap items_at e
        ∙ items_at-keep vs

or_default_kept : (v fallback : Bytes) → v ≢ [] → or_default v fallback ≡ v
or_default_kept [] fallback ne = absurd (ne refl)
or_default_kept (c ∷ v) fallback ne = refl

-- profile_from_json reads back what to_json writes, for a plain profile: no string in it is a key
-- that is read or holds a quote with such a key behind it, it has no control character without a
-- short escape, its numbers fit an int, transport and TLS mode are not empty, and the two core
-- configurations are.
pub profile_from_json-to_json : (p : Profile) → IsPlain p → profile_from_json (to_json p) ≡ p
unfolding profile_from_json find_field bytes_eq
profile_from_json-to_json p h = λ i. record {
  protocol = read_string_field p h (codes "protocol") refl refl p.protocol refl i;
  server = read_string_field p h (codes "server") refl refl p.server refl i;
  port = read_int_field p h (codes "port") refl refl p.port false refl (h.short.1.1.0) i;
  transport =
      (ap (λ v. or_default v (codes "raw"))
            (read_string_field p h (codes "transport") refl refl p.transport refl)
          ∙ or_default_kept p.transport (codes "raw") h.transport_ne_nil)
        i;
  tls_mode =
      (ap (λ v. or_default v (codes "none"))
            (read_string_field p h (codes "tlsMode") refl refl p.tls_mode refl)
          ∙ or_default_kept p.tls_mode (codes "none") h.tls_mode_ne_nil)
        i;
  remark = read_string_field p h (codes "remark") refl refl p.remark refl i;
  user_id = read_string_field p h (codes "userId") refl refl p.user_id refl i;
  password = read_string_field p h (codes "password") refl refl p.password refl i;
  method = read_string_field p h (codes "method") refl refl p.method refl i;
  security = read_string_field p h (codes "security") refl refl p.security refl i;
  alter_id =
      read_int_field p h (codes "alterId") refl refl p.alter_id true refl
        (h.short.1.1.1.1.1.1.1.1.1.1.0) i;
  flow = read_string_field p h (codes "flow") refl refl p.flow refl i;
  sni = read_string_field p h (codes "sni") refl refl p.sni refl i;
  alpn = read_array_field p h (codes "alpn") refl refl p.alpn refl i;
  host = read_string_field p h (codes "host") refl refl p.host refl i;
  path = read_string_field p h (codes "path") refl refl p.path refl i;
  service_name = read_string_field p h (codes "serviceName") refl refl p.service_name refl i;
  authority = read_string_field p h (codes "authority") refl refl p.authority refl i;
  fingerprint = read_string_field p h (codes "fingerprint") refl refl p.fingerprint refl i;
  public_key = read_string_field p h (codes "publicKey") refl refl p.public_key refl i;
  short_id = read_string_field p h (codes "shortId") refl refl p.short_id refl i;
  spider_x = read_string_field p h (codes "spiderX") refl refl p.spider_x refl i;
  allow_insecure = read_bool_field p h (codes "allowInsecure") refl refl p.allow_insecure refl i;
  plugin = read_string_field p h (codes "plugin") refl refl p.plugin refl i;
  plugin_opts = read_string_field p h (codes "pluginOpts") refl refl p.plugin_opts refl i;
  server_ports = read_array_field p h (codes "serverPorts") refl refl p.server_ports refl i;
  upload_mbps =
      read_int_field p h (codes "uploadMbps") refl refl p.upload_mbps true refl
        (h.short.1.1.1.1.1.1.1.1.1.1.1.1.1.1.1.1.1.1.1.1.1.1.1.1.1.1.0) i;
  download_mbps =
      read_int_field p h (codes "downloadMbps") refl refl p.download_mbps true refl
        (h.short.1.1.1.1.1.1.1.1.1.1.1.1.1.1.1.1.1.1.1.1.1.1.1.1.1.1.1.0) i;
  hysteria_network =
      read_string_field p h (codes "hysteriaNetwork") refl refl p.hysteria_network refl i;
  obfs = read_string_field p h (codes "obfs") refl refl p.obfs refl i;
  obfs_password = read_string_field p h (codes "obfsPassword") refl refl p.obfs_password refl i;
  sing_box_config_json =
      (read_no_field p h (codes "singBoxConfigJson") refl refl refl ∙ sym h.no_sing_box) i;
  xray_config_json = (read_no_field p h (codes "xrayConfigJson") refl refl refl ∙ sym h.no_xray) i;
}
