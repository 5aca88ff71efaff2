-- ===== src/Json/Serialize.antt =====
-- `serialize_json` of native/share_link_parser.cpp.
use entropy_vpn.Base.{Bool, true, false, [], ◌∷◌, ◌++◌, Bytes, codes}
use entropy_vpn.Json.Value.{
  Doubles, Json, Items, Members, null, bool, number, string, array, object, no_items, item,
  no_members, entry, number_text,
}
use entropy_vpn.Json.Writer.{quoted, separator}

-- What the function appends to the stream; the flag says that no item was written yet.
unfoldable mutual
  pub serialize : {N : Type 0} → Doubles N → Json N → Bytes
  serialize D null = codes "null"
  serialize D (bool true) = codes "true"
  serialize D (bool false) = codes "false"
  serialize D (number x) = number_text D x
  serialize D (string s) = quoted s
  serialize D (array vs) = b'[' ∷ (serialize_items D true vs ++ codes "]")
  serialize D (object ms) = b'{' ∷ (serialize_members D true ms ++ codes "}")

  pub serialize_items : {N : Type 0} → Doubles N → Bool → Items N → Bytes
  serialize_items D first no_items = []
  serialize_items D first (item v vs) =
      separator first ++ (serialize D v ++ serialize_items D false vs)

  pub serialize_members : {N : Type 0} → Doubles N → Bool → Members N → Bytes
  serialize_members D first no_members = []
  serialize_members D first (entry k v ms) =
      separator first ++ (quoted k ++ b':' ∷ (serialize D v ++ serialize_members D false ms))
