-- ===== src/Config/Fragments/WellFormed.antt =====
-- When a text is JSON: a grammar that reads a value off the front of a text.
use entropy_vpn.Base.{
  Bool, true, false, not, List, [], ◌∷◌, ◌++◌, append_assoc, Bytes, codes, String, ◌≡◌, ℤ, is_empty,
  if◌then◌else◌, inl, inr, ◌⊎◌, ◌==◌, ◌&&◌, ◌||◌, leb,
}
use entropy_vpn.Config.Fragments.{member, string_member, when, filled_member, filled_array, object}
use entropy_vpn.Config.Fragments.Grammar.{
  StartsChars, StartsNumber, only_zero, json_escape-StartsChars, write_int-StartsNumber,
}
use entropy_vpn.Json.Escape.{json_escape}
use entropy_vpn.Json.Writer.{quoted, more_quoted, quoted_items, quoted_array}
use entropy_vpn.Number.{write_int}
use entropy_vpn.Result.{Result, ok, err, ◌>>=◌}

-- A key: letters, digits and underscores.
abbrev pub is_name : Bytes → Bool
is_name [] = true
is_name (c ∷ s) =
    ((leb b'a' c && leb c b'z')
      || (leb b'A' c && leb c b'Z')
      || (leb b'0' c && leb c b'9')
      || c == b'_')
    && is_name s

mutual
  -- The text is a value and then the second text.
  pub data StartsValue : Bytes → Bytes → Type 0 where
    string_value : {s rest : Bytes} → StartsChars s rest → StartsValue (b'"' ∷ s) rest
    number_value : {s rest : Bytes} → StartsNumber s rest → StartsValue s rest
    negative_value : {s rest : Bytes} → StartsNumber s rest → StartsValue (b'-' ∷ s) rest
    true_value : (rest : Bytes) → StartsValue (codes "true" ++ rest) rest
    false_value : (rest : Bytes) → StartsValue (codes "false" ++ rest) rest
    empty_array : (rest : Bytes) → StartsValue (b'[' ∷ b']' ∷ rest) rest
    array_value :
        {s t rest : Bytes} → StartsValue s t → StartsItems t rest → StartsValue (b'[' ∷ s) rest
    empty_object : (rest : Bytes) → StartsValue (b'{' ∷ b'}' ∷ rest) rest
    object_value :
        (key : Bytes) {s t rest : Bytes}
        → is_name key ≡ true
        → StartsValue s t
        → StartsMembers t rest
        → StartsValue (b'{' ∷ b'"' ∷ (key ++ b'"' ∷ b':' ∷ s)) rest

  -- What follows an item of an array, to the bracket.
  pub data StartsItems : Bytes → Bytes → Type 0 where
    last_item : (rest : Bytes) → StartsItems (b']' ∷ rest) rest
    next_item :
        {s t rest : Bytes} → StartsValue s t → StartsItems t rest → StartsItems (b',' ∷ s) rest

  -- What follows a member of an object, to the brace.
  pub data StartsMembers : Bytes → Bytes → Type 0 where
    last_member : (rest : Bytes) → StartsMembers (b'}' ∷ rest) rest
    next_member :
        (key : Bytes) {s t rest : Bytes}
        → is_name key ≡ true
        → StartsValue s t
        → StartsMembers t rest
        → StartsMembers (b',' ∷ b'"' ∷ (key ++ b'"' ∷ b':' ∷ s)) rest

-- A value wherever it stands.
abbrev pub IsValue : Bytes → Type 0
IsValue s = (rest : Bytes) → StartsValue (s ++ rest) rest

-- Members, each behind a comma, that can stand in front of other members and of the brace.
abbrev pub IsMembers : Bytes → Type 0
IsMembers s = (t rest : Bytes) → StartsMembers t rest → StartsMembers (s ++ t) rest

-- Whatever the result is, its value has the property.
abbrev pub Ensures : (Bytes → Type 0) → Result Bytes → Type 0
Ensures P (ok s) = P s
Ensures P (err m) = Unit

pub quoted-IsValue : (v : Bytes) → IsValue (quoted v)
unfolding quoted
quoted-IsValue v rest =
    rw (append_assoc (json_escape v) (b'"' ∷ []) rest)
      (string_value (json_escape-StartsChars v rest))

pub write_int-IsValue : (i : ℤ) → IsValue (write_int i)
write_int-IsValue i rest = elim (write_int-StartsNumber i rest) [
  | inl h ↦ number_value h
  | inr (s, e, h) ↦ rw e (negative_value h)
]

items-StartsItems :
    (vs : List Bytes) (rest : Bytes) → StartsItems (more_quoted vs ++ b']' ∷ rest) rest
unfolding more_quoted
items-StartsItems [] rest = last_item rest
items-StartsItems (v ∷ vs) rest =
    rw (append_assoc (quoted v) (more_quoted vs) (b']' ∷ rest))
      (next_item (quoted-IsValue v (more_quoted vs ++ b']' ∷ rest)) (items-StartsItems vs rest))

pub quoted_array-IsValue : (vs : List Bytes) → IsValue (quoted_array vs)
unfolding quoted_array quoted_items
quoted_array-IsValue [] rest = empty_array rest
quoted_array-IsValue (v ∷ vs) rest =
    rw
      (
        append_assoc (quoted v ++ more_quoted vs) (b']' ∷ []) rest,
        append_assoc (quoted v) (more_quoted vs) (b']' ∷ rest),
      )
      (array_value (quoted-IsValue v (more_quoted vs ++ b']' ∷ rest)) (items-StartsItems vs rest))

pub nil-IsMembers : IsMembers []
nil-IsMembers t rest h = h

pub append-IsMembers : (s t : Bytes) → IsMembers s → IsMembers t → IsMembers (s ++ t)
append-IsMembers s t hs ht u rest h = rw (append_assoc s t u) (hs (t ++ u) rest (ht u rest h))

pub member-IsMembers :
    (key : String) (s : Bytes) → is_name (codes key) ≡ true → IsValue s → IsMembers (member key s)
unfolding member
member-IsMembers key s name h t rest more =
    rw
      (append_assoc (codes key ++ codes "\":") s t, append_assoc (codes key) (codes "\":") (s ++ t))
      (next_member (codes key) name (h t) more)

pub when-IsMembers : (b : Bool) (s : Bytes) → IsMembers s → IsMembers (when b s)
when-IsMembers true s h = h
when-IsMembers false s h = nil-IsMembers

pub string_member-IsMembers :
    (key : String) (v : Bytes) → is_name (codes key) ≡ true → IsMembers (string_member key v)
unfolding string_member
string_member-IsMembers key v name = member-IsMembers key (quoted v) name (quoted-IsValue v)

pub filled_member-IsMembers :
    (key : String) (v : Bytes) → is_name (codes key) ≡ true → IsMembers (filled_member key v)
unfolding filled_member
filled_member-IsMembers key v name =
    when-IsMembers (not (is_empty v)) (string_member key v) (string_member-IsMembers key v name)

pub filled_array-IsMembers :
    (key : String) (vs : List Bytes) → is_name (codes key) ≡ true → IsMembers (filled_array key vs)
unfolding filled_array
filled_array-IsMembers key vs name =
    when-IsMembers (not (is_empty vs)) _
      (member-IsMembers key (quoted_array vs) name (quoted_array-IsValue vs))

pub object-IsValue :
    (key : String) (first more : Bytes)
    → is_name (codes key) ≡ true
    → IsValue first
    → IsMembers more
    → IsValue (object key first more)
unfolding object
object-IsValue key first more n hf hm rest =
    let name = codes key ++ codes "\":" in
    rw
      (
        append_assoc (name ++ first ++ more) (b'}' ∷ []) rest,
        append_assoc (name ++ first) more (b'}' ∷ rest),
        append_assoc name first (more ++ b'}' ∷ rest),
        append_assoc (codes key) (codes "\":") (first ++ (more ++ b'}' ∷ rest)),
      )
      (object_value (codes key) n (hf (more ++ b'}' ∷ rest))
        (hm (b'}' ∷ rest) rest (last_member rest)))

pub Ensures-bind :
    (P Q : Bytes → Type 0) (r : Result Bytes) (f : Bytes → Result Bytes)
    → Ensures Q r
    → ((s : Bytes) → Q s → Ensures P (f s))
    → Ensures P (r >>= f)
Ensures-bind P Q (ok s) f h k = k s h
Ensures-bind P Q (err m) f h k = tt

pub Ensures-bind_any {ℓ} :
    {A : Type ℓ} (P : Bytes → Type 0) (r : Result A) (f : A → Result Bytes)
    → ((a : A) → Ensures P (f a))
    → Ensures P (r >>= f)
Ensures-bind_any P (ok a) f k = k a
Ensures-bind_any P (err m) f k = tt

pub true-IsValue : IsValue (codes "true")
true-IsValue rest = true_value rest

pub false-IsValue : IsValue (codes "false")
false-IsValue rest = false_value rest

pub zero-IsValue : IsValue (codes "0")
zero-IsValue rest = number_value (only_zero rest)

pub one_item-IsValue : (v : Bytes) → IsValue (codes "[" ++ quoted v ++ codes "]")
one_item-IsValue v rest =
    rw (append_assoc (quoted v) (codes "]") rest)
      (array_value (quoted-IsValue v (b']' ∷ rest)) (last_item rest))

-- What puts the pieces together.
pub ruleset json_text = (
  append-IsMembers, member-IsMembers, when-IsMembers, nil-IsMembers, string_member-IsMembers,
  filled_member-IsMembers, filled_array-IsMembers, object-IsValue, quoted-IsValue,
  quoted_array-IsValue, write_int-IsValue, true-IsValue, false-IsValue, zero-IsValue,
)

-- A value, or nothing.
abbrev pub IsOptional : Bytes → Type 0
IsOptional s = (s ≡ []) ⊎ IsValue s

pub IsOptional-IsMembers :
    (key : String) (s : Bytes)
    → is_name (codes key) ≡ true
    → IsOptional s
    → IsMembers (when (not (is_empty s)) (member key s))
IsOptional-IsMembers key s name (inl e) = rw e nil-IsMembers
IsOptional-IsMembers key s name (inr h) =
    when-IsMembers (not (is_empty s)) (member key s) (member-IsMembers key s name h)

pub if-IsMembers :
    (b : Bool) (s t : Bytes) → IsMembers s → IsMembers t → IsMembers (if b then s else t)
if-IsMembers true s t hs ht = hs
if-IsMembers false s t hs ht = ht

pub if-Ensures :
    (P : Bytes → Type 0) (b : Bool) (r s : Result Bytes)
    → Ensures P r
    → Ensures P s
    → Ensures P (if b then r else s)
if-Ensures P true r s hr hs = hr
if-Ensures P false r s hr hs = hs
