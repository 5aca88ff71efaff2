-- ===== src/Config/Fragments.antt =====
-- Pieces of JSON text that the builders of native/share_link_parser.cpp write one after the other,
-- and their checks `require_value` and `require_positive_int`.
pub mod Grammar
pub mod WellFormed
pub mod Rows
use entropy_vpn.Base.{
  Bool, List, [], ◌∷◌, ◌++◌, Bytes, codes, String, if◌then◌else◌, is_empty, not, ℤ, is_positive,
}
use entropy_vpn.Json.Writer.{quoted, quoted_array}
use entropy_vpn.Result.{Result, ok, err}
use entropy_vpn.Text.{trim}

unfoldable pub require_value : Bytes → String → Result Bytes
require_value value name =
    if is_empty (trim value)
    then err (codes name ++ codes " is missing in the provided link.")
    else ok value

unfoldable pub require_positive_int : ℤ → String → Result ℤ
require_positive_int value name =
    if is_positive value
    then ok value
    else err (codes name ++ codes " is missing in the provided link.")

-- The key, with the colon behind it.
abbrev pub key_text : String → Bytes
key_text key = codes "\"" ++ codes key ++ codes "\":"

-- One more member of an object: `json << ",\"key\":" << text`.
unfoldable pub member : String → Bytes → Bytes
member key text = codes "," ++ key_text key ++ text

unfoldable pub string_member : String → Bytes → Bytes
unfolding member
string_member key value = member key (quoted value)

abbrev pub when : Bool → Bytes → Bytes
when test text = if test then text else []

-- `if (!value.empty())`
unfoldable pub filled_member : String → Bytes → Bytes
unfolding string_member
filled_member key value = when (not (is_empty value)) (string_member key value)

-- The same for a list.
unfoldable pub filled_array : String → List Bytes → Bytes
unfolding member
filled_array key values = when (not (is_empty values)) (member key (quoted_array values))

-- `{`, a first member, more members, `}`.
unfoldable pub object : String → Bytes → Bytes → Bytes
object key first more = codes "{" ++ key_text key ++ first ++ more ++ codes "}"
