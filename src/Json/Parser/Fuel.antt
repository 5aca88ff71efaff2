-- ===== src/Json/Parser/Fuel.antt =====
-- The fuel of the parser: what is left grows shorter, and more fuel than enough changes nothing.
use entropy_vpn.Base.{
  ℕ, zero, suc, ◌+◌, ◌*◌, ◌<◌, ◌≤◌, Bool, true, false, [], ◌∷◌, Bytes, ◌==◌, ◌≡◌, refl, arith,
  length, drop, if◌then◌else◌, length-drop,
}
use entropy_vpn.Json.Parser.Strings.{length-string_body}
use entropy_vpn.Json.Parser.{
  numeric_run, expect, peek, parse_string, Parsed, parse_number, parse_object, parse_array,
  value_at, after_member, member_at, after_item, item_at, parse_value, parse_members, parse_items,
  parse,
}
use entropy_vpn.Json.Value.{Doubles, Json, Items, Members, no_members, assign_member}
use entropy_vpn.Result.{Result, ok, err, ◌>>=◌}
use entropy_vpn.Text.Trim.{length-trim_start}
use entropy_vpn.Text.{trim_start}

-- What is left is no longer than the bound.
abbrev pub Leaves : {A : Type 0} → ℕ → Parsed A → Type 0
Leaves n (ok (a, rest)) = length rest ≤ n
Leaves n (err m) = Unit

pub Leaves-weaken : {A : Type 0} (n m : ℕ) (r : Parsed A) → n ≤ m → Leaves n r → Leaves m r
Leaves-weaken n m (ok (a, rest)) le h = omega arith
Leaves-weaken n m (err e) le h = tt

Leaves-bind :
    {A B : Type 0} (n m : ℕ) (r : Parsed A) (f : A × Bytes → Parsed B)
    → Leaves n r
    → ((a : A) (rest : Bytes) → length rest ≤ n → Leaves m (f (a, rest)))
    → Leaves m (r >>= f)
Leaves-bind n m (ok (a, rest)) f h k = k a rest h
Leaves-bind n m (err e) f h k = tt

if-Leaves :
    {A : Type 0} (n : ℕ) (b : Bool) (r s : Parsed A)
    → Leaves n r
    → Leaves n s
    → Leaves n (if b then r else s)
if-Leaves n true r s hr hs = hr
if-Leaves n false r s hr hs = hs

length-numeric_run : (s : Bytes) → length ((numeric_run s).1) ≤ length s
unfolding numeric_run
length-numeric_run [] = omega arith
length-numeric_run (c ∷ s) = ground (arith, length-numeric_run s)

-- `expect` takes a character.
abbrev pub LeavesText : ℕ → Result Bytes → Type 0
LeavesText n (ok s) = length s ≤ n
LeavesText n (err m) = Unit

pub expect-LeavesText :
    (c : ℕ) (s : Bytes) (n : ℕ) → 0 < c → length s ≤ suc n → LeavesText n (expect c s)
unfolding expect
expect-LeavesText c [] n p h = ground arith
expect-LeavesText c (d ∷ s) n p h = ground arith

LeavesText-bind :
    {B : Type 0} (n m : ℕ) (r : Result Bytes) (f : Bytes → Parsed B)
    → LeavesText n r
    → ((rest : Bytes) → length rest ≤ n → Leaves m (f rest))
    → Leaves m (r >>= f)
LeavesText-bind n m (ok rest) f h k = k rest h
LeavesText-bind n m (err e) f h k = tt

pub parse_string-Leaves : (s : Bytes) (n : ℕ) → length s ≤ suc n → Leaves n (parse_string s)
unfolding parse_string
parse_string-Leaves s n h =
    LeavesText-bind n n (expect b'"' s) _ (expect-LeavesText b'"' s n (omega arith) h)
      (λ rest le. omega (arith, length-string_body 0 rest))

length-drop_trimmed : (s : Bytes) (k n : ℕ) → length s ≤ n → length (drop k (trim_start s)) ≤ n
length-drop_trimmed s k n h = omega (arith, length-drop k (trim_start s), length-trim_start s)

module _ {N : Type 0} (D : Doubles N) where
  value_at-Leaves :
      (members : Bytes → Parsed (Members N)) (items : Bytes → Parsed (Items N)) (s : Bytes)
      → ((t : Bytes) → Leaves (length t) (members t))
      → ((t : Bytes) → Leaves (length t) (items t))
      → Leaves (length s) (value_at D members items s)
  unfolding value_at parse_number parse_object parse_array
  value_at-Leaves members items s hm hi =
      let n = length s in
      let shorter = length-drop 1 s in
      if-Leaves n (peek s == b'{') _ _
        (if-Leaves n (peek (trim_start (drop 1 s)) == b'}') _ _
          (length-drop_trimmed (drop 1 s) 1 n (omega arith))
          (Leaves-bind (length (drop 1 s)) n (members (drop 1 s)) _ (hm (drop 1 s))
            (λ ms rest h. omega arith)))
        (if-Leaves n (peek s == b'[') _ _
          (if-Leaves n (peek (trim_start (drop 1 s)) == b']') _ _
            (length-drop_trimmed (drop 1 s) 1 n (omega arith))
            (Leaves-bind (length (drop 1 s)) n (items (drop 1 s)) _ (hi (drop 1 s))
              (λ vs rest h. omega arith)))
          (if-Leaves n (peek s == b'"') _ _
            (Leaves-bind n n (parse_string s) _ (parse_string-Leaves s n (omega arith))
              (λ text rest h. h))
            (if-Leaves n (peek s == b't') _ _ (omega (arith, length-drop 4 s)) (
              if-Leaves n (peek s == b'f') _ _ (omega (arith, length-drop 5 s)) (
                if-Leaves n (peek s == b'n') _ _ (omega (arith, length-drop 4 s))
                  (length-numeric_run s))))))

  after_member-Leaves :
      (more : Bytes → Parsed (Members N)) (ms : Members N) (s : Bytes) (n : ℕ)
      → length s ≤ n
      → ((t : Bytes) → Leaves (length t) (more t))
      → Leaves n (after_member D more ms s)
  unfolding after_member
  after_member-Leaves more ms s n le h =
      if-Leaves n (peek s == b'}') _ _ (omega (arith, length-drop 1 s)) (
        if-Leaves n (peek s == b',') _ _
          (Leaves-weaken (length (drop 1 s)) n (more (drop 1 s)) (omega (arith, length-drop 1 s))
            (h (drop 1 s)))
          tt)

  member_at-Leaves :
      (value : Bytes → Parsed (Json N)) (more : Members N → Bytes → Parsed (Members N))
      (ms : Members N) (s : Bytes)
      → ((t : Bytes) → Leaves (length t) (value t))
      → ((ms : Members N) (t : Bytes) → Leaves (length t) (more ms t))
      → Leaves (length s) (member_at D value more ms s)
  unfolding member_at trim_start
  member_at-Leaves value more ms s hv hm =
      let n = length s in
      Leaves-bind n n (parse_string (trim_start s)) _
        (parse_string-Leaves (trim_start s) n (omega (arith, length-trim_start s)))
        (λ key behind hk.
          LeavesText-bind n n (expect b':' (trim_start behind)) _
            (expect-LeavesText b':' (trim_start behind) n (omega arith)
              (omega (arith, length-trim_start behind)))
            (λ colon hc.
              Leaves-bind n n (value colon) _
                (Leaves-weaken (length colon) n (value colon) hc (hv colon))
                (λ v rest hr.
                  after_member-Leaves (more (assign_member key v ms)) (assign_member key v ms)
                    (trim_start rest) n (omega (arith, length-trim_start rest))
                    (hm (assign_member key v ms)))))

  after_item-Leaves :
      (more : Bytes → Parsed (Items N)) (v : Json N) (s : Bytes) (n : ℕ)
      → length s ≤ n
      → ((t : Bytes) → Leaves (length t) (more t))
      → Leaves n (after_item D more v s)
  unfolding after_item
  after_item-Leaves more v s n le h =
      let shorter = length-drop 1 s in
      if-Leaves n (peek s == b']') _ _ (omega arith) (
        if-Leaves n (peek s == b',') _ _
          (Leaves-bind n n (more (drop 1 s)) _
            (Leaves-weaken (length (drop 1 s)) n (more (drop 1 s)) (omega arith) (h (drop 1 s)))
            (λ vs rest hr. hr))
          tt)

  item_at-Leaves :
      (value : Bytes → Parsed (Json N)) (more : Bytes → Parsed (Items N)) (s : Bytes)
      → ((t : Bytes) → Leaves (length t) (value t))
      → ((t : Bytes) → Leaves (length t) (more t))
      → Leaves (length s) (item_at D value more s)
  unfolding item_at
  item_at-Leaves value more s hv hm =
      Leaves-bind (length s) (length s) (value s) _ (hv s) (λ v rest h.
        after_item-Leaves more v (trim_start rest) (length s)
          (omega (arith, length-trim_start rest)) hm)

mutual
  unfolding parse_value

  pub parse_value-Leaves :
      {N : Type 0} (D : Doubles N) (f : ℕ) (s : Bytes) → Leaves (length s) (parse_value D f s)
  parse_value-Leaves D zero s = tt
  parse_value-Leaves D (suc f) s =
      Leaves-weaken (length (trim_start s)) (length s) _ (length-trim_start s) (
        value_at-Leaves D (parse_members D f no_members) (parse_items D f) (trim_start s)
          (parse_members-Leaves D f no_members) (parse_items-Leaves D f))

  parse_members-Leaves :
      {N : Type 0} (D : Doubles N) (f : ℕ) (ms : Members N) (s : Bytes)
      → Leaves (length s) (parse_members D f ms s)
  parse_members-Leaves D zero ms s = tt
  parse_members-Leaves D (suc f) ms s =
      member_at-Leaves D (parse_value D f) (parse_members D f) ms s (parse_value-Leaves D f)
        (parse_members-Leaves D f)

  parse_items-Leaves :
      {N : Type 0} (D : Doubles N) (f : ℕ) (s : Bytes) → Leaves (length s) (parse_items D f s)
  parse_items-Leaves D zero s = tt
  parse_items-Leaves D (suc f) s =
      item_at-Leaves D (parse_value D f) (parse_items D f) s (parse_value-Leaves D f)
        (parse_items-Leaves D f)

-- Two continuations that agree on what is left.
bind-eq :
    {A B : Type 0} (n : ℕ) (r : Parsed A) (f g : A × Bytes → Parsed B)
    → Leaves n r
    → ((a : A) (rest : Bytes) → length rest ≤ n → f (a, rest) ≡ g (a, rest))
    → (r >>= f) ≡ (r >>= g)
bind-eq n (ok (a, rest)) f g h k = k a rest h
bind-eq n (err m) f g h k = refl

text_bind-eq :
    {B : Type 0} (n : ℕ) (r : Result Bytes) (f g : Bytes → Parsed B)
    → LeavesText n r
    → ((rest : Bytes) → length rest ≤ n → f rest ≡ g rest)
    → (r >>= f) ≡ (r >>= g)
text_bind-eq n (ok rest) f g h k = k rest h
text_bind-eq n (err m) f g h k = refl

-- Two parsers agree on every text that is not longer than the bound.
abbrev Agree : {A : Type 0} → ℕ → (Bytes → Parsed A) → (Bytes → Parsed A) → Type 0
Agree n p q = (t : Bytes) → length t < n → p t ≡ q t

module _ {N : Type 0} (D : Doubles N) where
  value_at-eq :
      (members members' : Bytes → Parsed (Members N)) (items items' : Bytes → Parsed (Items N))
      (s : Bytes)
      → Agree (length s) members members'
      → Agree (length s) items items'
      → value_at D members items s ≡ value_at D members' items' s
  unfolding value_at parse_object parse_array
  value_at-eq members members' items items' [] hm hi = refl
  value_at-eq members members' items items' (c ∷ s) hm hi =
      rw (hm s (omega arith), hi s (omega arith)) refl

  after_member-eq :
      (more more' : Bytes → Parsed (Members N)) (ms : Members N) (s : Bytes)
      → Agree (length s) more more'
      → after_member D more ms s ≡ after_member D more' ms s
  unfolding after_member
  after_member-eq more more' ms [] h = refl
  after_member-eq more more' ms (c ∷ s) h = rw (h s (omega arith)) refl

  member_at-eq :
      (value value' : Bytes → Parsed (Json N)) (more more' : Members N → Bytes → Parsed (Members N))
      (ms : Members N) (s : Bytes)
      → ((t : Bytes) → Leaves (length t) (value' t))
      → Agree (length s) value value'
      → ((ms : Members N) → Agree (length s) (more ms) (more' ms))
      → member_at D value more ms s ≡ member_at D value' more' ms s
  unfolding member_at trim_start
  member_at-eq value value' more more' ms [] hl hv hm = unfold parse_string expect in refl
  member_at-eq value value' more more' ms (c ∷ s) hl hv hm =
      let n = length s in
      bind-eq n (parse_string (trim_start (c ∷ s))) _ _
        (parse_string-Leaves (trim_start (c ∷ s)) n (length-trim_start (c ∷ s)))
        (λ key behind hk.
          text_bind-eq n (expect b':' (trim_start behind)) _ _
            (expect-LeavesText b':' (trim_start behind) n (omega arith)
              (omega (arith, length-trim_start behind)))
            (λ colon hc. rw (hv colon (omega arith)) (
              bind-eq n (value' colon) _ _
                (Leaves-weaken (length colon) n (value' colon) hc (hl colon))
                (λ v rest hr.
                  after_member-eq (more (assign_member key v ms)) (more' (assign_member key v ms))
                    (assign_member key v ms) (trim_start rest)
                    (λ t lt.
                      hm (assign_member key v ms) t (omega (arith, length-trim_start rest)))))))

  after_item-eq :
      (more more' : Bytes → Parsed (Items N)) (v : Json N) (s : Bytes)
      → Agree (length s) more more'
      → after_item D more v s ≡ after_item D more' v s
  unfolding after_item
  after_item-eq more more' v [] h = refl
  after_item-eq more more' v (c ∷ s) h = rw (h s (omega arith)) refl

  item_at-eq :
      (value value' : Bytes → Parsed (Json N)) (more more' : Bytes → Parsed (Items N)) (s : Bytes)
      → ((t : Bytes) → Leaves (length t) (value' t))
      → value s ≡ value' s
      → Agree (length s) more more'
      → item_at D value more s ≡ item_at D value' more' s
  unfolding item_at
  item_at-eq value value' more more' s hl hv hm = rw hv (
      bind-eq (length s) (value' s) _ _ (hl s) (λ v rest h.
        after_item-eq more more' v (trim_start rest)
          (λ t lt. hm t (omega (arith, length-trim_start rest)))))

mutual
  unfolding parse_value

  pub parse_value-eq :
      {N : Type 0} (D : Doubles N) (f g : ℕ) (s : Bytes)
      → 2 * length s < f
      → 2 * length s < g
      → parse_value D f s ≡ parse_value D g s
  parse_value-eq D zero g s hf hg = absurd (omega arith)
  parse_value-eq D (suc f) zero s hf hg = absurd (omega arith)
  parse_value-eq D (suc f) (suc g) s hf hg =
      value_at-eq D (parse_members D f no_members) (parse_members D g no_members) (parse_items D f)
        (parse_items D g) (trim_start s)
        (λ t lt.
          parse_members-eq D f g no_members t (omega (arith, length-trim_start s))
            (omega (arith, length-trim_start s)))
        (λ t lt.
          parse_items-eq D f g t (omega (arith, length-trim_start s))
            (omega (arith, length-trim_start s)))

  parse_members-eq :
      {N : Type 0} (D : Doubles N) (f g : ℕ) (ms : Members N) (s : Bytes)
      → 2 * length s + 1 < f
      → 2 * length s + 1 < g
      → parse_members D f ms s ≡ parse_members D g ms s
  parse_members-eq D zero g ms s hf hg = absurd (omega arith)
  parse_members-eq D (suc f) zero ms s hf hg = absurd (omega arith)
  parse_members-eq D (suc f) (suc g) ms s hf hg =
      member_at-eq D (parse_value D f) (parse_value D g) (parse_members D f) (parse_members D g) ms
        s (parse_value-Leaves D g) (λ t lt. parse_value-eq D f g t (omega arith) (omega arith))
        (λ ms' t lt. parse_members-eq D f g ms' t (omega arith) (omega arith))

  parse_items-eq :
      {N : Type 0} (D : Doubles N) (f g : ℕ) (s : Bytes)
      → 2 * length s + 1 < f
      → 2 * length s + 1 < g
      → parse_items D f s ≡ parse_items D g s
  parse_items-eq D zero g s hf hg = absurd (omega arith)
  parse_items-eq D (suc f) zero s hf hg = absurd (omega arith)
  parse_items-eq D (suc f) (suc g) s hf hg =
      item_at-eq D (parse_value D f) (parse_value D g) (parse_items D f) (parse_items D g) s
        (parse_value-Leaves D g) (parse_value-eq D f g s (omega arith) (omega arith))
        (λ t lt. parse_items-eq D f g t (omega arith) (omega arith))

pub parse-any_fuel :
    {N : Type 0} (D : Doubles N) (f : ℕ) (text : Bytes)
    → 2 * length text < f
    → parse D text ≡ (parse_value D f text >>= λ p. ok (p.0))
unfolding parse
parse-any_fuel D f text h = rw (parse_value-eq D (2 * length text + 1) f text (omega arith) h) refl
