-- ===== src/Json/Parser/InTime.antt =====
-- The parser ends: with the fuel that `parse` gives it, it never runs out of fuel.
use entropy_vpn.Base.{
  ℕ, zero, suc, ◌+◌, ◌*◌, ◌<◌, ◌≤◌, Bool, true, false, [], ◌∷◌, Bytes, ◌==◌, ◌≡◌, ◌≢◌, refl, arith,
  length, if◌then◌else◌, is_empty,
}
use mathlib.Core.Path.{subst}
use entropy_vpn.Json.Parser.Fuel.{
  Leaves, LeavesText, Leaves-weaken, parse_string-Leaves, expect-LeavesText, parse_value-Leaves,
  parse-any_fuel,
}
use entropy_vpn.Json.Parser.{
  expect, peek, parse_string, Parsed, parse_object, parse_array, value_at, after_member, member_at,
  after_item, item_at, parse_value, parse_members, parse_items, parse, out_of_fuel,
}
use entropy_vpn.Json.Value.{Doubles, Json, Items, Members, no_members, assign_member}
use entropy_vpn.Result.{Result, ok, err, ◌>>=◌}
use entropy_vpn.Text.Trim.{length-trim_start}
use entropy_vpn.Text.{trim_start}

-- A value, or an error with a message; running out of fuel has none.
abbrev InTime : {A : Type 0} → Result A → Type 0
InTime (ok a) = Unit
InTime (err m) = is_empty m ≡ false

InTime-bind :
    {A B : Type 0} (r : Result A) (f : A → Result B)
    → InTime r
    → ((a : A) → InTime (f a))
    → InTime (r >>= f)
InTime-bind (ok a) f h k = k a
InTime-bind (err m) f h k = h

InTime-bind_Leaves :
    {A B : Type 0} (n : ℕ) (r : Parsed A) (f : A × Bytes → Parsed B)
    → InTime r
    → Leaves n r
    → ((a : A) (rest : Bytes) → length rest ≤ n → InTime (f (a, rest)))
    → InTime (r >>= f)
InTime-bind_Leaves n (ok (a, rest)) f h le k = k a rest le
InTime-bind_Leaves n (err m) f h le k = h

InTime-bind_LeavesText :
    {B : Type 0} (n : ℕ) (r : Result Bytes) (f : Bytes → Parsed B)
    → InTime r
    → LeavesText n r
    → ((rest : Bytes) → length rest ≤ n → InTime (f rest))
    → InTime (r >>= f)
InTime-bind_LeavesText n (ok rest) f h le k = k rest le
InTime-bind_LeavesText n (err m) f h le k = h

if-InTime :
    {A : Type 0} (b : Bool) (r s : Result A) → InTime r → InTime s → InTime (if b then r else s)
if-InTime true r s hr hs = hr
if-InTime false r s hr hs = hs

expect-InTime : (c : ℕ) (s : Bytes) → InTime (expect c s)
unfolding expect
expect-InTime c s = if-InTime (peek s == c) _ _ tt refl

parse_string-InTime : (s : Bytes) → InTime (parse_string s)
unfolding parse_string
parse_string-InTime s = InTime-bind (expect b'"' s) _ (expect-InTime b'"' s) (λ rest. tt)

-- A parser ends on every text that is shorter than the bound.
abbrev Ends : {A : Type 0} → ℕ → (Bytes → Parsed A) → Type 0
Ends n p = (t : Bytes) → length t < n → InTime (p t)

module _ {N : Type 0} (D : Doubles N) where
  value_at-InTime :
      (members : Bytes → Parsed (Members N)) (items : Bytes → Parsed (Items N)) (s : Bytes)
      → Ends (length s) members
      → Ends (length s) items
      → InTime (value_at D members items s)
  unfolding value_at parse_object parse_array
  value_at-InTime members items [] hm hi = tt
  value_at-InTime members items (c ∷ s) hm hi =
      if-InTime (c == b'{') _ _
        (if-InTime (peek (trim_start s) == b'}') _ _ tt
          (InTime-bind (members s) _ (hm s (omega arith)) (λ p. tt)))
        (if-InTime (c == b'[') _ _
          (if-InTime (peek (trim_start s) == b']') _ _ tt
            (InTime-bind (items s) _ (hi s (omega arith)) (λ p. tt)))
          (if-InTime (c == b'"') _ _
            (InTime-bind (parse_string (c ∷ s)) _ (parse_string-InTime (c ∷ s)) (λ p. tt))
            (if-InTime (c == b't') _ _ tt
              (if-InTime (c == b'f') _ _ tt (if-InTime (c == b'n') _ _ tt tt)))))

  after_member-InTime :
      (more : Bytes → Parsed (Members N)) (ms : Members N) (s : Bytes)
      → Ends (length s) more
      → InTime (after_member D more ms s)
  unfolding after_member
  after_member-InTime more ms [] h = refl
  after_member-InTime more ms (c ∷ s) h =
      if-InTime (c == b'}') _ _ tt (if-InTime (c == b',') _ _ (h s (omega arith)) refl)

  member_at-InTime :
      (value : Bytes → Parsed (Json N)) (more : Members N → Bytes → Parsed (Members N))
      (ms : Members N) (s : Bytes)
      → ((t : Bytes) → Leaves (length t) (value t))
      → Ends (length s) value
      → ((ms : Members N) → Ends (length s) (more ms))
      → InTime (member_at D value more ms s)
  unfolding member_at trim_start
  member_at-InTime value more ms [] hl hv hm = unfold parse_string expect in refl
  member_at-InTime value more ms (c ∷ s) hl hv hm =
      let n = length s in
      InTime-bind_Leaves n (parse_string (trim_start (c ∷ s))) _
        (parse_string-InTime (trim_start (c ∷ s)))
        (parse_string-Leaves (trim_start (c ∷ s)) n (length-trim_start (c ∷ s)))
        (λ key behind hk.
          InTime-bind_LeavesText n (expect b':' (trim_start behind)) _
            (expect-InTime b':' (trim_start behind))
            (expect-LeavesText b':' (trim_start behind) n (omega arith)
              (omega (arith, length-trim_start behind)))
            (λ colon hc.
              InTime-bind_Leaves n (value colon) _ (hv colon (omega arith))
                (Leaves-weaken (length colon) n (value colon) hc (hl colon))
                (λ v rest hr.
                  after_member-InTime (more (assign_member key v ms)) (assign_member key v ms)
                    (trim_start rest)
                    (λ t lt.
                      hm (assign_member key v ms) t (omega (arith, length-trim_start rest))))))

  after_item-InTime :
      (more : Bytes → Parsed (Items N)) (v : Json N) (s : Bytes)
      → Ends (length s) more
      → InTime (after_item D more v s)
  unfolding after_item
  after_item-InTime more v [] h = refl
  after_item-InTime more v (c ∷ s) h =
      if-InTime (c == b']') _ _ tt
        (if-InTime (c == b',') _ _ (InTime-bind (more s) _ (h s (omega arith)) (λ p. tt)) refl)

  item_at-InTime :
      (value : Bytes → Parsed (Json N)) (more : Bytes → Parsed (Items N)) (s : Bytes)
      → Leaves (length s) (value s)
      → InTime (value s)
      → Ends (length s) more
      → InTime (item_at D value more s)
  unfolding item_at
  item_at-InTime value more s hl hv hm =
      InTime-bind_Leaves (length s) (value s) _ hv hl (λ v rest h.
        after_item-InTime more v (trim_start rest)
          (λ t lt. hm t (omega (arith, length-trim_start rest))))

mutual
  unfolding parse_value

  parse_value-InTime :
      {N : Type 0} (D : Doubles N) (f : ℕ) (s : Bytes)
      → 2 * length s < f
      → InTime (parse_value D f s)
  parse_value-InTime D zero s h = absurd (omega arith)
  parse_value-InTime D (suc f) s h =
      value_at-InTime D (parse_members D f no_members) (parse_items D f) (trim_start s)
        (λ t lt. parse_members-InTime D f no_members t (omega (arith, length-trim_start s)))
        (λ t lt. parse_items-InTime D f t (omega (arith, length-trim_start s)))

  parse_members-InTime :
      {N : Type 0} (D : Doubles N) (f : ℕ) (ms : Members N) (s : Bytes)
      → 2 * length s + 1 < f
      → InTime (parse_members D f ms s)
  parse_members-InTime D zero ms s h = absurd (omega arith)
  parse_members-InTime D (suc f) ms s h =
      member_at-InTime D (parse_value D f) (parse_members D f) ms s (parse_value-Leaves D f)
        (λ t lt. parse_value-InTime D f t (omega arith))
        (λ ms' t lt. parse_members-InTime D f ms' t (omega arith))

  parse_items-InTime :
      {N : Type 0} (D : Doubles N) (f : ℕ) (s : Bytes)
      → 2 * length s + 1 < f
      → InTime (parse_items D f s)
  parse_items-InTime D zero s h = absurd (omega arith)
  parse_items-InTime D (suc f) s h =
      item_at-InTime D (parse_value D f) (parse_items D f) s (parse_value-Leaves D f s)
        (parse_value-InTime D f s (omega arith)) (λ t lt. parse_items-InTime D f t (omega arith))

parse-InTime : {N : Type 0} (D : Doubles N) (text : Bytes) → InTime (parse D text)
unfolding parse
parse-InTime D text =
    InTime-bind (parse_value D (2 * length text + 1) text) _
      (parse_value-InTime D (2 * length text + 1) text (omega arith)) (λ p. tt)

-- For every text, parse never runs out of fuel: the fuel that it gives to the parser, twice the
-- length of the text and one, is enough, and with any fuel above twice the length the result, a
-- value or an error, is the same.
pub parse-parse_value :
    {N : Type 0} (D : Doubles N) (f : ℕ) (text : Bytes)
    → 2 * length text < f
    → (parse D text ≡ (parse_value D f text >>= λ p. ok (p.0))) × (parse D text ≢ err out_of_fuel)
parse-parse_value D f text h = (
  parse-any_fuel D f text h,
  λ e. let wrong : true ≡ false = subst InTime e (parse-InTime D text) in ground arith,
)
