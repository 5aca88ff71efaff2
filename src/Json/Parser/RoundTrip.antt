-- ===== src/Json/Parser/RoundTrip.antt =====
-- Reading back what `serialize_json` writes.
use entropy_vpn.Base.{
  ℕ, zero, suc, ◌+◌, ◌*◌, ◌≤◌, true, false, [], ◌∷◌, ◌++◌, append_assoc, append-nil, Bytes, codes,
  All, ◌==◌, ◌≡◌, ◌≢◌, refl, sym, ◌∙◌, ap, arith, length,
}
use entropy_vpn.Json.Parser.Fuel.{parse-any_fuel}
use entropy_vpn.Json.Parser.Sorted.{IsOrdered, assign_all, assign_all_lem}
use entropy_vpn.Json.Parser.Strings.{IsCString, parse_string-quoted}
use entropy_vpn.Json.Parser.{
  numeric_run, is_numeric, peek, expect, Parsed, parse_number, parse_object, parse_array, value_at,
  after_member, member_at, after_item, item_at, parse_value, parse_members, parse_items, parse,
}
use entropy_vpn.Json.Serialize.{serialize, serialize_items, serialize_members}
use entropy_vpn.Json.Value.{
  Doubles, Json, Items, Members, null, bool, number, string, array, object, no_items, item,
  no_members, entry, number_text, assign_member,
}
use entropy_vpn.Json.Writer.{quoted}
use entropy_vpn.Result.{ok, ◌>>=◌}
use entropy_vpn.Text.{trim_start, is_space}

module _ {N : Type 0} (D : Doubles N) where
  -- A number whose text is made of the characters of numbers, and that `strtod` reads back.
  abbrev pub IsExact : N → Type 0
  IsExact x =
      (number_text D x ≢ [])
      × All (λ c. is_numeric c ≡ true) (number_text D x)
      × (D.strtod (number_text D x) ≡ x)

-- Values whose texts hold no zero byte, whose numbers are read back, and whose members are in order.
abbrev mutual
  pub IsPlainJson : {N : Type 0} → Doubles N → Json N → Type 0
  IsPlainJson D (number x) = IsExact D x
  IsPlainJson D (string s) = IsCString s
  IsPlainJson D (array vs) = ArePlainItems D vs
  IsPlainJson D (object ms) = ArePlainMembers D ms × IsOrdered ms
  IsPlainJson D _ = Unit

  pub ArePlainItems : {N : Type 0} → Doubles N → Items N → Type 0
  ArePlainItems D no_items = Unit
  ArePlainItems D (item v vs) = IsPlainJson D v × ArePlainItems D vs

  pub ArePlainMembers : {N : Type 0} → Doubles N → Members N → Type 0
  ArePlainMembers D no_members = Unit
  ArePlainMembers D (entry k v ms) = IsCString k × IsPlainJson D v × ArePlainMembers D ms

-- What follows a value does not go on with a number.
abbrev EndsNumber : Bytes → Type 0
EndsNumber [] = Unit
EndsNumber (c ∷ s) = is_numeric c ≡ false

numeric_run-append :
    (t rest : Bytes)
    → All (λ c. is_numeric c ≡ true) t
    → EndsNumber rest
    → numeric_run (t ++ rest) ≡ (t, rest)
unfolding numeric_run
numeric_run-append [] [] h e = refl
numeric_run-append [] (c ∷ rest) h e = rw e refl
numeric_run-append (c ∷ t) rest h e = rw (h.0, numeric_run-append t rest h.1 e) refl

-- A value starts with a character that is no white space and ends no array.
abbrev StartsJson : Bytes → Type 0
StartsJson [] = ⊥
StartsJson (c ∷ s) = (is_space c ≡ false) × (c ≢ b']')

numeric-StartsJson : (t : Bytes) → t ≢ [] → All (λ c. is_numeric c ≡ true) t → StartsJson t
numeric-StartsJson [] ne h = ne refl
numeric-StartsJson (c ∷ t) ne h = (ground arith, ground arith)

serialize-StartsJson :
    {N : Type 0} (D : Doubles N) (j : Json N) → IsPlainJson D j → StartsJson (serialize D j)
unfolding serialize quoted
serialize-StartsJson D null h = (refl, omega arith)
serialize-StartsJson D (bool true) h = (refl, omega arith)
serialize-StartsJson D (bool false) h = (refl, omega arith)
serialize-StartsJson D (number x) (ne, all, back) = numeric-StartsJson (number_text D x) ne all
serialize-StartsJson D (string s) h = (refl, omega arith)
serialize-StartsJson D (array vs) h = (refl, omega arith)
serialize-StartsJson D (object ms) h = (refl, omega arith)

trim_start-StartsJson : (t rest : Bytes) → StartsJson t → trim_start (t ++ rest) ≡ t ++ rest
unfolding trim_start
trim_start-StartsJson [] rest h = absurd h
trim_start-StartsJson (c ∷ t) rest h = rw h.0 refl

peek-StartsJson : (t rest : Bytes) → StartsJson t → (peek (t ++ rest) == b']') ≡ false
peek-StartsJson [] rest h = absurd h
peek-StartsJson (c ∷ t) rest h = ground arith

starts_more : (t rest : Bytes) → StartsJson t → (peek (trim_start (t ++ rest)) == b']') ≡ false
starts_more t rest h = rw (trim_start-StartsJson t rest h) (peek-StartsJson t rest h)

-- The rounds that a value takes.
mutual
  cost : {N : Type 0} → Json N → ℕ
  cost (array vs) = suc (cost_items vs)
  cost (object ms) = suc (cost_members ms)
  cost _ = 1

  cost_items : {N : Type 0} → Items N → ℕ
  cost_items no_items = 0
  cost_items (item v vs) = suc (cost v + cost_items vs)

  cost_members : {N : Type 0} → Members N → ℕ
  cost_members no_members = 0
  cost_members (entry k v ms) = suc (cost v + cost_members ms)

value_at-numeric :
    {N : Type 0} (D : Doubles N) (members : Bytes → Parsed (Members N))
    (items : Bytes → Parsed (Items N)) (t rest : Bytes)
    → t ≢ []
    → All (λ c. is_numeric c ≡ true) t
    → value_at D members items (t ++ rest) ≡ ok (parse_number D (t ++ rest))
unfolding value_at
value_at-numeric D members items [] rest ne h = absurd (ne refl)
value_at-numeric D members items (c ∷ t) rest ne h =
    let digit = h.0 in
    let brace : (c == b'{') ≡ false = ground arith in
    let bracket : (c == b'[') ≡ false = ground arith in
    let quote : (c == b'"') ≡ false = ground arith in
    let tee : (c == b't') ≡ false = ground arith in
    let eff : (c == b'f') ≡ false = ground arith in
    let enn : (c == b'n') ≡ false = ground arith in rw (brace, bracket, quote, tee, eff, enn) refl

number-value_at :
    {N : Type 0} (D : Doubles N) (members : Bytes → Parsed (Members N))
    (items : Bytes → Parsed (Items N)) (x : N) (rest : Bytes)
    → IsExact D x
    → EndsNumber rest
    → value_at D members items (number_text D x ++ rest) ≡ ok (number x, rest)
number-value_at D members items x rest (ne, all, back) e =
    value_at-numeric D members items (number_text D x) rest ne all
    ∙ unfold parse_number in rw (numeric_run-append (number_text D x) rest all e, back) refl

peek-quoted : (s rest : Bytes) → peek (quoted s ++ rest) ≡ b'"'
unfolding quoted
peek-quoted s rest = refl

-- The steps of the loops, over what the parsers that they call return.
module _ {N : Type 0} (D : Doubles N) where
  array_at :
      (members : Bytes → Parsed (Members N)) (items : Bytes → Parsed (Items N)) (t : Bytes)
      {vs : Items N} {rest : Bytes}
      → (peek (trim_start t) == b']') ≡ false
      → items t ≡ ok (vs, rest)
      → value_at D members items (b'[' ∷ t) ≡ ok (array vs, rest)
  unfolding value_at parse_array
  array_at members items t more e = rw (more, e) refl

  object_at :
      (members : Bytes → Parsed (Members N)) (items : Bytes → Parsed (Items N)) (k t : Bytes)
      {ms : Members N} {rest : Bytes}
      → members (quoted k ++ t) ≡ ok (ms, rest)
      → value_at D members items (b'{' ∷ (quoted k ++ t)) ≡ ok (object ms, rest)
  unfolding value_at parse_object quoted trim_start
  object_at members items k t e = rw e refl

  string_at :
      (members : Bytes → Parsed (Members N)) (items : Bytes → Parsed (Items N)) (s rest : Bytes)
      → IsCString s
      → value_at D members items (trim_start (quoted s ++ rest)) ≡ ok (string s, rest)
  unfolding value_at
  string_at members items s rest h =
      rw (trim_start-StartsJson (quoted s) rest (unfold quoted in (refl, omega arith)))
        (rw (peek-quoted s rest) (rw (parse_string-quoted s rest h) refl))

  last_item_at :
      (value : Bytes → Parsed (Json N)) (more : Bytes → Parsed (Items N)) (s : Bytes) {v : Json N}
      {rest : Bytes}
      → value s ≡ ok (v, b']' ∷ rest)
      → item_at D value more s ≡ ok (item v no_items, rest)
  unfolding item_at after_item trim_start
  last_item_at value more s e = rw e refl

  next_item_at :
      (value : Bytes → Parsed (Json N)) (more : Bytes → Parsed (Items N)) (s t : Bytes) {v : Json N}
      {vs : Items N} {rest : Bytes}
      → value s ≡ ok (v, b',' ∷ t)
      → more t ≡ ok (vs, rest)
      → item_at D value more s ≡ ok (item v vs, rest)
  unfolding item_at after_item trim_start
  next_item_at value more s t e e' = rw e (rw e' refl)

  last_member_at :
      (value : Bytes → Parsed (Json N)) (more : Members N → Bytes → Parsed (Members N))
      (acc : Members N) (k s : Bytes) {v : Json N} {rest : Bytes}
      → IsCString k
      → value s ≡ ok (v, b'}' ∷ rest)
      → member_at D value more acc (quoted k ++ b':' ∷ s) ≡ ok (assign_member k v acc, rest)
  unfolding member_at after_member expect trim_start
  last_member_at value more acc k s hk e =
      rw (trim_start-StartsJson (quoted k) (b':' ∷ s) (unfold quoted in (refl, omega arith)))
        (rw (parse_string-quoted k (b':' ∷ s) hk) (rw e refl))

  next_member_at :
      (value : Bytes → Parsed (Json N)) (more : Members N → Bytes → Parsed (Members N))
      (acc : Members N) (k s t : Bytes) {v : Json N} {ms : Members N} {rest : Bytes}
      → IsCString k
      → value s ≡ ok (v, b',' ∷ t)
      → more (assign_member k v acc) t ≡ ok (ms, rest)
      → member_at D value more acc (quoted k ++ b':' ∷ s) ≡ ok (ms, rest)
  unfolding member_at after_member expect trim_start
  next_member_at value more acc k s t hk e e' =
      rw (trim_start-StartsJson (quoted k) (b':' ∷ s) (unfold quoted in (refl, omega arith)))
        (rw (parse_string-quoted k (b':' ∷ s) hk) (rw e (rw e' refl)))

-- The text of the items and of the members, regrouped.
close_items : (a b rest : Bytes) → ((a ++ b) ++ codes "]") ++ rest ≡ a ++ (b ++ b']' ∷ rest)
close_items a b rest = append_assoc (a ++ b) (b']' ∷ []) rest ∙ append_assoc a b (b']' ∷ rest)

next_text : (k a b rest : Bytes) → (k ++ b':' ∷ (a ++ b)) ++ rest ≡ k ++ b':' ∷ (a ++ (b ++ rest))
next_text k a b rest =
    append_assoc k (b':' ∷ (a ++ b)) rest ∙ ap (λ t. k ++ b':' ∷ t) (append_assoc a b rest)

close_members :
    (k a b rest : Bytes)
    → ((k ++ b':' ∷ (a ++ b)) ++ codes "}") ++ rest ≡ k ++ b':' ∷ (a ++ (b ++ b'}' ∷ rest))
close_members k a b rest =
    append_assoc (k ++ b':' ∷ (a ++ b)) (b'}' ∷ []) rest ∙ next_text k a b (b'}' ∷ rest)

mutual
  unfolding parse_value serialize cost value_at trim_start parse_array parse_object assign_all

  parse_value-serialize :
      {N : Type 0} (D : Doubles N) (f : ℕ) (j : Json N) (rest : Bytes)
      → cost j ≤ f
      → IsPlainJson D j
      → EndsNumber rest
      → parse_value D f (serialize D j ++ rest) ≡ ok (j, rest)
  parse_value-serialize D zero null rest le h e = absurd (omega arith)
  parse_value-serialize D zero (bool b) rest le h e = absurd (omega arith)
  parse_value-serialize D zero (number x) rest le h e = absurd (omega arith)
  parse_value-serialize D zero (string s) rest le h e = absurd (omega arith)
  parse_value-serialize D zero (array vs) rest le h e = absurd (omega arith)
  parse_value-serialize D zero (object ms) rest le h e = absurd (omega arith)
  parse_value-serialize D (suc f) null rest le h e = refl
  parse_value-serialize D (suc f) (bool true) rest le h e = refl
  parse_value-serialize D (suc f) (bool false) rest le h e = refl
  parse_value-serialize D (suc f) (number x) rest le h e =
      ap (value_at D (parse_members D f no_members) (parse_items D f)) (
        trim_start-StartsJson (number_text D x) rest (numeric-StartsJson (number_text D x) h.0 h.1))
      ∙ number-value_at D (parse_members D f no_members) (parse_items D f) x rest h e
  parse_value-serialize D (suc f) (string s) rest le h e =
      string_at D (parse_members D f no_members) (parse_items D f) s rest h
  parse_value-serialize D (suc f) (array no_items) rest le h e = refl
  parse_value-serialize D (suc f) (array (item v vs)) rest le h e =
      let tail = serialize_items D false vs ++ b']' ∷ rest in
      ap (λ t. value_at D (parse_members D f no_members) (parse_items D f) (b'[' ∷ t))
        (close_items (serialize D v) (serialize_items D false vs) rest)
      ∙ array_at D (parse_members D f no_members) (parse_items D f) (serialize D v ++ tail)
          (starts_more (serialize D v) tail (serialize-StartsJson D v h.0))
          (parse_items-serialize D f v vs rest (omega arith) h.0 h.1)
  parse_value-serialize D (suc f) (object no_members) rest le h e = refl
  parse_value-serialize D (suc f) (object (entry k v ms)) rest le h e =
      let tail = b':' ∷ (serialize D v ++ (serialize_members D false ms ++ b'}' ∷ rest)) in
      ap (λ t. value_at D (parse_members D f no_members) (parse_items D f) (b'{' ∷ t))
        (close_members (quoted k) (serialize D v) (serialize_members D false ms) rest)
      ∙ object_at D (parse_members D f no_members) (parse_items D f) k tail (
          parse_members-serialize D f no_members k v ms rest (omega arith) h.0.0 h.0.1 h.0.2
          ∙ ap (λ m. ok (m, rest)) (assign_all_lem (entry k v ms) h.1))

  parse_items-serialize :
      {N : Type 0} (D : Doubles N) (f : ℕ) (v : Json N) (vs : Items N) (rest : Bytes)
      → cost_items (item v vs) ≤ f
      → IsPlainJson D v
      → ArePlainItems D vs
      → parse_items D f (serialize D v ++ (serialize_items D false vs ++ b']' ∷ rest))
        ≡ ok (item v vs, rest)
  parse_items-serialize D zero v vs rest le hv h = absurd (omega arith)
  parse_items-serialize D (suc f) v no_items rest le hv h =
      last_item_at D (parse_value D f) (parse_items D f) _
        (parse_value-serialize D f v (b']' ∷ rest) (omega arith) hv refl)
  parse_items-serialize D (suc f) v (item v' vs) rest le hv h =
      let tail = serialize_items D false vs ++ b']' ∷ rest in
      rw (append_assoc (serialize D v') (serialize_items D false vs) (b']' ∷ rest)) (
        next_item_at D (parse_value D f) (parse_items D f) _ (serialize D v' ++ tail)
          (parse_value-serialize D f v (b',' ∷ (serialize D v' ++ tail)) (omega arith) hv refl)
          (parse_items-serialize D f v' vs rest (omega arith) h.0 h.1))

  parse_members-serialize :
      {N : Type 0} (D : Doubles N) (f : ℕ) (acc : Members N) (k : Bytes) (v : Json N)
      (ms : Members N) (rest : Bytes)
      → cost_members (entry k v ms) ≤ f
      → IsCString k
      → IsPlainJson D v
      → ArePlainMembers D ms
      → parse_members D f acc
          (quoted k ++ b':' ∷ (serialize D v ++ (serialize_members D false ms ++ b'}' ∷ rest)))
        ≡ ok (assign_all acc (entry k v ms), rest)
  parse_members-serialize D zero acc k v ms rest le hk hv h = absurd (omega arith)
  parse_members-serialize D (suc f) acc k v no_members rest le hk hv h =
      last_member_at D (parse_value D f) (parse_members D f) acc k _ hk
        (parse_value-serialize D f v (b'}' ∷ rest) (omega arith) hv refl)
  parse_members-serialize D (suc f) acc k v (entry k' v' ms) rest le hk hv h =
      let tail = serialize_members D false ms ++ b'}' ∷ rest in
      let next = quoted k' ++ b':' ∷ (serialize D v' ++ tail) in
      ap
        (λ t.
          member_at D (parse_value D f) (parse_members D f) acc
            (quoted k ++ b':' ∷ (serialize D v ++ (b',' ∷ t))))
        (next_text (quoted k') (serialize D v') (serialize_members D false ms) (b'}' ∷ rest))
      ∙ next_member_at D (parse_value D f) (parse_members D f) acc k
          (serialize D v ++ (b',' ∷ next)) next hk
          (parse_value-serialize D f v (b',' ∷ next) (omega arith) hv refl)
          (parse_members-serialize D f (assign_member k v acc) k' v' ms rest (omega arith) h.0 h.1
            h.2)

-- JsonParser reads back what serialize_json writes: for a value whose texts hold no zero byte,
-- whose objects have their keys in order, and each of whose numbers is written as a text of number
-- characters that is not empty and that strtod reads back.
pub parse-serialize :
    {N : Type 0} (D : Doubles N) (j : Json N) → IsPlainJson D j → parse D (serialize D j) ≡ ok j
parse-serialize D j h =
    let text = serialize D j in
    let fuel = cost j + 2 * length text + 1 in
    parse-any_fuel D fuel text (omega arith)
    ∙ ap (λ t. parse_value D fuel t >>= λ p. ok (p.0)) (sym (append-nil text))
    ∙ ap (λ r. r >>= λ p. ok (p.0)) (parse_value-serialize D fuel j [] (omega arith) h tt)
