-- ===== src/Json/Value.antt =====
-- `struct Json` of native/share_link_parser.cpp: a value, and what its members read and change.
pub mod Laws
use entropy_vpn.Base.{
  ℕ, Bool, true, false, List, [], ◌∷◌, ◌++◌, map, Option, none, some, Bytes, codes, String,
  bytes_eq, is_empty, if◌then◌else◌, ℤ, pos,
}
use entropy_vpn.Config.Dns.{atoi}
use entropy_vpn.Config.Matchers.{bytes_lt}
use entropy_vpn.Number.{write_long}
use entropy_vpn.Text.{is_some}

-- What the code uses of `double`: `strtod`, the conversion from an `int`, the cast to `long long`
-- with the test whether it loses nothing, and what a stream writes.
pub record Doubles (N : Type 0) : Type 0 where
  pub strtod : Bytes → N
  pub of_int : ℤ → N
  pub to_long : N → ℤ
  pub is_long : N → Bool
  pub stream : N → Bytes

-- `Items` and `Members` are what an array and an object hold; the members of a `std::map` stand in
-- the order of their keys.
mutual
  pub data Json (N : Type 0) : Type 0 where
    null : Json N
    bool : Bool → Json N
    number : N → Json N
    string : Bytes → Json N
    array : Items N → Json N
    object : Members N → Json N

  pub data Items (N : Type 0) : Type 0 where
    no_items : Items N
    item : Json N → Items N → Items N

  pub data Members (N : Type 0) : Type 0 where
    no_members : Members N
    entry : Bytes → Json N → Members N → Members N

module _ {N : Type 0} where
  abbrev pub is_object : Json N → Bool
  is_object (object ms) = true
  is_object _ = false

  abbrev pub is_array : Json N → Bool
  is_array (array vs) = true
  is_array _ = false

  abbrev pub is_null : Json N → Bool
  is_null null = true
  is_null _ = false

  -- The members of an object; of any other value, none.
  abbrev pub members_of : Json N → Members N
  members_of (object ms) = ms
  members_of _ = no_members

  abbrev pub list_of : Items N → List (Json N)
  list_of no_items = []
  list_of (item v vs) = v ∷ list_of vs

  abbrev pub items_from : List (Json N) → Items N
  items_from [] = no_items
  items_from (v ∷ vs) = item v (items_from vs)

  -- `array()`
  abbrev pub elements : Json N → List (Json N)
  elements (array vs) = list_of vs
  elements _ = []

  unfoldable pub find_member : Bytes → Members N → Option (Json N)
  find_member key no_members = none
  find_member key (entry k v ms) = if bytes_eq k key then some v else find_member key ms

  abbrev or_null : Option (Json N) → Json N
  or_null none = null
  or_null (some v) = v

  -- `at`
  unfoldable pub at : Json N → Bytes → Json N
  at j key = or_null (find_member key (members_of j))

  -- `contains`
  unfoldable pub contains_key : Json N → Bytes → Bool
  contains_key j key = is_some (find_member key (members_of j))

  -- `object[key] = value`
  unfoldable pub assign_member : Bytes → Json N → Members N → Members N
  assign_member key value no_members = entry key value no_members
  assign_member key value (entry k v ms) =
      let later = assign_member key value ms in
      if bytes_eq k key
      then entry k value ms
      else if bytes_lt key k
      then entry key value (entry k v ms)
      else entry k v later

  -- A key stands in a map once.
  unfoldable pub erase_member : Bytes → Members N → Members N
  erase_member key no_members = no_members
  erase_member key (entry k v ms) =
      let later = erase_member key ms in if bytes_eq k key then later else entry k v later

  -- `member(key) = value`, which makes an object of any other value.
  unfoldable pub set_member : Bytes → Json N → Json N → Json N
  unfolding assign_member
  set_member key value j = object (assign_member key value (members_of j))

  -- `erase(key)`
  unfoldable pub erase : Bytes → Json N → Json N
  unfolding erase_member
  erase key (object ms) = object (erase_member key ms)
  erase key j = j

  -- `bool_value`
  unfoldable pub bool_value : Json N → Bool
  bool_value (bool b) = b
  bool_value _ = false

module _ {N : Type 0} (D : Doubles N) where
  -- The text of a number: whole numbers without a point or an exponent.
  unfoldable pub number_text : N → Bytes
  number_text x = if D.is_long x then write_long (D.to_long x) else D.stream x

  -- `string_value`
  unfoldable pub string_value : Json N → Bytes
  unfolding number_text
  string_value (string s) = s
  string_value (number x) = number_text x
  string_value (bool true) = codes "true"
  string_value (bool false) = codes "false"
  string_value _ = []

  int_of_text : Bytes → ℤ
  int_of_text text = if is_empty text then pos 0 else atoi text

  -- `int_value`; the cast to `int` keeps the value, where C++ leaves one that does not fit undefined.
  unfoldable pub int_value : Json N → ℤ
  unfolding int_of_text string_value
  int_value (number x) = D.to_long x
  int_value j = int_of_text (string_value j)
