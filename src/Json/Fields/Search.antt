-- ===== src/Json/Fields/Search.antt =====
-- Where the search for a quoted key can end: not inside a written string, unless the string is the
-- key or ends, behind a quote of its own, with it.
use entropy_vpn.Base.{
  ℕ, true, false, [], ◌∷◌, ◌++◌, append_assoc, none, some, Bytes, All, Lacks, ◌==◌, ◌≡◌, ◌≢◌, ◌⊎◌,
  inl, inr, refl, sym, ◌∙◌, ap, arith, Bool-cases, ltb, drop, ◌||◌, ◌<◌, ◌/◌, ◌%◌,
}
use entropy_vpn.Json.Escape.{k_hex, escape_byte, json_escape}
use entropy_vpn.Json.Fields.{quote, backslash, text_after, needle}
use entropy_vpn.Json.Writer.{quoted}
use entropy_vpn.Text.Search.{strip_prefix-append}
use entropy_vpn.Text.{is_alnum, strip_prefix}

-- Letters and digits only, and at least one.
abbrev pub IsAlnum : Bytes → Type 0
IsAlnum = All (λ c. is_alnum c ≡ true)

abbrev pub IsKey : Bytes → Type 0
IsKey k = (k ≢ []) × IsAlnum k

-- No text behind a quote inside `v` is `k`.
abbrev pub HidesKey : Bytes → Bytes → Type 0
HidesKey k [] = Unit
HidesKey k (c ∷ v) = (c ≡ quote → v ≢ k) × HidesKey k v

-- The search for `"k"` runs past the string `v`.
abbrev pub Clear : Bytes → Bytes → Type 0
Clear k v = (v ≢ k) × HidesKey k v

-- What follows a string does not go on with a letter or a digit.
abbrev pub StartsOther : Bytes → Type 0
StartsOther [] = Unit
StartsOther (c ∷ s) = is_alnum c ≡ false

strip_ne : (b c : ℕ) (n s : Bytes) → b ≢ c → strip_prefix (b ∷ n) (c ∷ s) ≡ none
unfolding strip_prefix
strip_ne b c n s h = ground arith

strip_eq : (b c : ℕ) (n s : Bytes) → b ≡ c → strip_prefix (b ∷ n) (c ∷ s) ≡ strip_prefix n s
unfolding strip_prefix
strip_eq b c n s h = ground arith

-- A byte is written as itself, or with a backslash in front.
escape_byte_lem :
    (c : ℕ)
    → ((escape_byte c ≡ c ∷ []) × (c ≢ quote)) ⊎ ((t : Bytes) × (escape_byte c ≡ backslash ∷ t))
unfolding escape_byte
escape_byte_lem c = elim (Bool-cases (c == quote || c == backslash || ltb c 32)) [
  | inl special ↦ inr (drop 1 (escape_byte c), ground arith)
  | inr ordinary ↦ inl (ground arith, ground arith)
]

strip_key :
    (k v r : Bytes)
    → IsAlnum k
    → v ≢ k
    → strip_prefix (k ++ quote ∷ []) (json_escape v ++ quote ∷ r) ≡ none
unfolding json_escape
strip_key [] [] r hk ne = absurd (ne refl)
strip_key (b ∷ k) [] r hk ne = strip_ne b quote _ r (ground arith)
strip_key [] (c ∷ v) r hk ne = elim (escape_byte_lem c) [
  | inl (e, h) ↦ rw e (strip_ne quote c [] _ (λ x. h (sym x)))
  | inr (t, e) ↦ rw e (strip_ne quote backslash [] _ (omega arith))
]
strip_key (b ∷ k) (c ∷ v) r hk ne = elim (escape_byte_lem c) [
  | inl (e, h) ↦ rw e (same_or_other (strip_key k v r hk.1))
  | inr (t, e) ↦ rw e (strip_ne b backslash _ _ (ground arith))
]
  where
    same_or_other :
        (v ≢ k → strip_prefix (k ++ quote ∷ []) (json_escape v ++ quote ∷ r) ≡ none)
        → strip_prefix (b ∷ (k ++ quote ∷ [])) (c ∷ (json_escape v ++ quote ∷ r)) ≡ none
    same_or_other later = elim (Bool-cases (b == c)) [
      | inl same ↦
          let e : b ≡ c = ground arith in
          strip_eq b c _ _ e ∙ later (λ same_tail. ne (cc (e, same_tail)))
      | inr other ↦ strip_ne b c _ _ (ground arith)
    ]

text_after_skip :
    (n : Bytes) (c : ℕ) (s : Bytes)
    → strip_prefix n (c ∷ s) ≡ none
    → text_after n (c ∷ s) ≡ text_after n s
unfolding text_after
text_after_skip n c s h = rw h

-- A text with no quotes is skipped.
pub text_after_plain :
    (k p s : Bytes) → Lacks quote p → text_after (needle k) (p ++ s) ≡ text_after (needle k) s
text_after_plain k [] s h = refl
text_after_plain k (c ∷ p) s h =
    text_after_skip (needle k) c (p ++ s) (strip_ne quote c _ _ (λ e. h.0 (sym e)))
    ∙ text_after_plain k p s h.1

k_hex-ne-quote : (d : ℕ) → d < 16 → k_hex d ≢ quote
unfolding k_hex
k_hex-ne-quote d h = ground arith

escape_byte-Lacks : (c : ℕ) → c ≢ quote → Lacks quote (escape_byte c)
unfolding escape_byte
escape_byte-Lacks c h = ground (arith, k_hex-ne-quote (c / 16 % 16), k_hex-ne-quote (c % 16))

-- A quote is skipped, unless the key and a quote follow.
text_after-quote :
    (k s : Bytes)
    → strip_prefix (k ++ quote ∷ []) s ≡ none
    → text_after (needle k) (quote ∷ s) ≡ text_after (needle k) s
text_after-quote k s h = text_after_skip (needle k) quote s (strip_eq quote quote _ _ refl ∙ h)

strip_other : (k s : Bytes) → IsKey k → StartsOther s → strip_prefix (k ++ quote ∷ []) s ≡ none
strip_other [] s hk h = absurd (hk.0 refl)
strip_other (b ∷ k) [] hk h = unfold strip_prefix in refl
strip_other (b ∷ k) (c ∷ s) hk h = strip_ne b c _ s (λ e. cc (h, hk.1.0, ap is_alnum e))

escape_quote :
    (v s : Bytes) → json_escape (quote ∷ v) ++ s ≡ backslash ∷ quote ∷ (json_escape v ++ s)
unfolding json_escape escape_byte
escape_quote v s = refl

escape_other :
    (c : ℕ) (v s : Bytes) → json_escape (c ∷ v) ++ s ≡ escape_byte c ++ (json_escape v ++ s)
unfolding json_escape
escape_other c v s = append_assoc (escape_byte c) (json_escape v) s

text_after_escaped :
    (k v r : Bytes)
    → IsKey k
    → HidesKey k v
    → StartsOther r
    → text_after (needle k) (json_escape v ++ quote ∷ r) ≡ text_after (needle k) r
text_after_escaped k [] r hk h hr =
    unfold json_escape in text_after-quote k r (strip_other k r hk hr)
text_after_escaped k (c ∷ v) r hk h hr = elim (Bool-cases (c == quote)) [
  | inl q ↦
      let e : c ≡ quote = ground arith in
      ap (λ b. text_after (needle k) (json_escape (b ∷ v) ++ quote ∷ r)) e
      ∙ ap (text_after (needle k)) (escape_quote v (quote ∷ r))
      ∙ text_after_plain k (backslash ∷ []) (quote ∷ (json_escape v ++ quote ∷ r)) (omega arith)
      ∙ text_after-quote k _ (strip_key k v r hk.1 (h.0 e))
      ∙ text_after_escaped k v r hk h.1 hr
  | inr other ↦
      ap (text_after (needle k)) (escape_other c v (quote ∷ r))
      ∙ text_after_plain k (escape_byte c) _ (escape_byte-Lacks c (ground arith))
      ∙ text_after_escaped k v r hk h.1 hr
]

-- A written string is skipped as a whole, if it is clear of the key.
pub text_after-quoted :
    (k v r : Bytes)
    → IsKey k
    → Clear k v
    → StartsOther r
    → text_after (needle k) (quoted v ++ r) ≡ text_after (needle k) r
unfolding quoted
text_after-quoted k v r hk h hr =
    ap (λ s. text_after (needle k) (quote ∷ s)) (append_assoc (json_escape v) (quote ∷ []) r)
    ∙ text_after-quote k _ (strip_key k v r hk.1 h.0)
    ∙ text_after_escaped k v r hk h.1 hr

pub text_after_prefix : (b : ℕ) (n r : Bytes) → text_after (b ∷ n) ((b ∷ n) ++ r) ≡ some r
unfolding text_after
text_after_prefix b n r = rw (strip_prefix-append (b ∷ n) r)

-- The key itself is found.
pub text_after_key : (k r : Bytes) → text_after (needle k) (quote ∷ (k ++ quote ∷ r)) ≡ some r
text_after_key k r =
    ap (text_after (needle k)) (sym (ap (◌∷◌ quote) (append_assoc k (quote ∷ []) r)))
    ∙ text_after_prefix quote (k ++ quote ∷ []) r

pub text_after_nil : (k : Bytes) → text_after (needle k) [] ≡ none
unfolding text_after strip_prefix
text_after_nil k = refl
