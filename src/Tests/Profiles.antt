-- ===== src/Tests/Profiles.antt =====
-- Profiles as JSON text: `to_json`, `profile_from_json` and the readers of single fields.
use entropy_vpn.Base.{
  true, List, [], ◌∷◌, ◌++◌, Bytes, codes, ◌≡◌, refl, pos, negsuc, arith, bytes_eq,
}
use entropy_vpn.Json.Escape.{json_escape, escape_byte, unescape_byte, k_hex}
use entropy_vpn.Json.Fields.{
  json_string_value, json_bool_value, json_string_array_value, value_text, text_after, read_string,
}
use entropy_vpn.Json.Rows.Readers.{
  find_field, string_at, items_at, flag_at, json_string_value-write_object,
  json_string_array_value-write_object, json_bool_value-write_object,
}
use entropy_vpn.Json.Rows.{Field, string_field, int_field, bool_field, array_field, write_object}
use entropy_vpn.Json.Writer.{
  quoted, add_string, add_int, add_bool, add_string_array, quoted_array, close_object,
}
use entropy_vpn.Number.{write_int}
use entropy_vpn.Profile.Checked.{IsPlain-checked}
use entropy_vpn.Profile.RoundTrip.{profile_from_json-to_json}
use entropy_vpn.Profile.{Profile, new_profile, to_json, profile_from_json}
use entropy_vpn.Text.{trim_start, strip_prefix}

abbrev sample : Profile
sample = record new_profile {
  protocol = codes "vless";
  server = codes "example.org";
  port = pos 443;
  remark = codes "my server";
  user_id = codes "u";
  alpn = codes "h2" ∷ codes "http/1.1" ∷ [];
  allow_insecure = true;
}

sample_text :
    to_json sample
    ≡ codes
        "{\"protocol\":\"vless\",\"server\":\"example.org\",\"port\":443,\"transport\":\"raw\",\"tlsMode\":\"none\",\"remark\":\"my server\",\"userId\":\"u\",\"alpn\":[\"h2\",\"http/1.1\"],\"allowInsecure\":true}"
unfolding to_json write_object json_escape escape_byte add_string add_int add_bool add_string_array
    quoted quoted_array write_int close_object
sample_text = refl

profile_from_json-to_json_example : profile_from_json (to_json sample) ≡ sample
unfolding bytes_eq
profile_from_json-to_json_example =
    profile_from_json-to_json sample (IsPlain-checked sample refl (cc) (cc) refl refl)

-- A profile named like a key is not read back: `host` takes the value that follows the remark.
abbrev named_host : Profile
named_host = record sample { remark = codes "host" }

host_is_user_id : json_string_value (to_json named_host) (codes "host") ≡ codes "u"
unfolding json_string_value value_text text_after strip_prefix trim_start read_string to_json
    write_object json_escape escape_byte add_string add_int add_bool add_string_array quoted
    quoted_array write_int close_object
host_is_user_id = refl

-- A control character with no short escape is read back as five other bytes.
control_is_lost :
    json_string_value (codes "{\"remark\":" ++ quoted (1 ∷ []) ++ codes "}") (codes "remark")
    ≡ codes "u0001"
unfolding json_string_value value_text text_after strip_prefix trim_start read_string unescape_byte
    quoted json_escape escape_byte k_hex
control_is_lost = refl

abbrev fields : List (Bytes × Field)
fields =
    (codes "name", string_field (codes "a\"b"))
    ∷ (codes "size", int_field (negsuc 4) true)
    ∷ (codes "tags", array_field (codes "x" ∷ codes "y,]" ∷ []))
    ∷ (codes "on", bool_field true)
    ∷ []

json_string_value-write_object_example :
    json_string_value (write_object fields) (codes "name")
    ≡ string_at (find_field (codes "name") fields)
unfolding find_field bytes_eq
json_string_value-write_object_example =
    json_string_value-write_object (codes "name") fields (ground arith) (ground arith)
      (ground arith)

json_bool_value-write_object_example :
    json_bool_value (write_object fields) (codes "on") ≡ flag_at (find_field (codes "on") fields)
unfolding find_field bytes_eq
json_bool_value-write_object_example =
    json_bool_value-write_object (codes "on") fields (ground arith) (ground arith) (ground arith)

json_string_array_value-write_object_example :
    json_string_array_value (write_object fields) (codes "tags")
    ≡ items_at (find_field (codes "tags") fields)
unfolding find_field bytes_eq
json_string_array_value-write_object_example =
    json_string_array_value-write_object (codes "tags") fields (ground arith) (ground arith)
      (ground arith)
