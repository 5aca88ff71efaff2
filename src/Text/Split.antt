-- ===== src/Text/Split.antt =====
-- The pieces that splitting finds are those that were joined.
use entropy_vpn.Base.{
  ℕ, Bool, true, false, List, [], ◌∷◌, ◌++◌, ◌≡◌, ◌≢◌, refl, ◌∙◌, arith, Bytes, Lacks, All, All-map,
  ◌==◌, is_empty, ap, ==_refl,
}
use entropy_vpn.Text.Trim.{IsTrimmed, trim_fixed}
use entropy_vpn.Text.{is_space, trim, pieces, cons_piece, keep_trimmed, split_list}

module _ (p : ℕ → Bool) where
  pieces_cons : (c : ℕ) (s : Bytes) → p c ≡ false → pieces p (c ∷ s) ≡ cons_piece c (pieces p s)
  unfolding pieces
  pieces_cons c s h = rw h

  pub pieces_last : (s : Bytes) → All (λ c. p c ≡ false) s → pieces p s ≡ s ∷ []
  pieces_last [] h = unfold pieces in refl
  pieces_last (c ∷ s) h = pieces_cons c s h.0 ∙ rw (pieces_last s h.1)

  pieces_sep : (c : ℕ) (s : Bytes) → p c ≡ true → pieces p (c ∷ s) ≡ [] ∷ pieces p s
  unfolding pieces
  pieces_sep c s h = rw h

  pub pieces_first :
      (s : Bytes) (c : ℕ) (rest : Bytes)
      → All (λ c. p c ≡ false) s
      → p c ≡ true
      → pieces p (s ++ c ∷ rest) ≡ s ∷ pieces p rest
  pieces_first [] c rest h hc = pieces_sep c rest hc
  pieces_first (d ∷ s) c rest h hc =
      pieces_cons d (s ++ c ∷ rest) h.0 ∙ rw (pieces_first s c rest h.1 hc)

-- The texts with a separator between each two.
unfoldable pub join : ℕ → List Bytes → Bytes
join separator [] = []
join separator (v ∷ []) = v
join separator (v ∷ w ∷ vs) = v ++ separator ∷ join separator (w ∷ vs)

-- An item that `split_list` keeps as it is.
abbrev pub IsItem : ℕ → Bytes → Type 0
IsItem separator v = (v ≢ []) × IsTrimmed v × Lacks separator v

not-is_empty : (v : Bytes) → v ≢ [] → is_empty v ≡ false
not-is_empty [] h = absurd (h refl)
not-is_empty (c ∷ v) h = refl

keep_trimmed_item :
    (v : Bytes) (vs : List Bytes)
    → v ≢ []
    → IsTrimmed v
    → keep_trimmed (v ∷ vs) ≡ v ∷ keep_trimmed vs
keep_trimmed_item v vs ne t = unfold keep_trimmed in rw (trim_fixed v t, not-is_empty v ne)

Lacks-not_separator :
    (separator : ℕ) (v : Bytes) → Lacks separator v → All (λ c. (c == separator) ≡ false) v
Lacks-not_separator separator v = All-map (λ c (h : c ≢ separator). ground arith) v

trim_solid_head : (c : ℕ) (s : Bytes) → is_space c ≡ false → is_empty (trim (c ∷ s)) ≡ false
unfolding trim
trim_solid_head c s h = ground arith

keep_trimmed_solid :
    (c : ℕ) (ps : List Bytes) → is_space c ≡ false → keep_trimmed (cons_piece c ps) ≢ []
unfolding keep_trimmed
keep_trimmed_solid c [] h e = cc (e, trim_solid_head c [] h)
keep_trimmed_solid c (p ∷ ps) h e = ground (arith, trim_solid_head c p h)

-- Items that are not empty, have no white space at an end and do not hold the separator, joined by
-- that separator, are split into the same items by split_list.
pub split_list-join :
    (separator : ℕ) (vs : List Bytes)
    → All (IsItem separator) vs
    → split_list (join separator vs) separator ≡ vs
unfolding split_list join
split_list-join separator [] h = unfold pieces keep_trimmed trim in refl
split_list-join separator (v ∷ []) h =
    let (ne, t, l) = h.0 in
    ap keep_trimmed (pieces_last _ v (Lacks-not_separator separator v l))
    ∙ keep_trimmed_item v [] ne t
    ∙ unfold keep_trimmed in refl
split_list-join separator (v ∷ w ∷ vs) h =
    let (ne, t, l) = h.0 in
    ap keep_trimmed
      (pieces_first _ v separator _ (Lacks-not_separator separator v l) (==_refl separator))
    ∙ keep_trimmed_item v (pieces (λ c. c == separator) (join separator (w ∷ vs))) ne t
    ∙ ap (◌∷◌ v) (split_list-join separator (w ∷ vs) h.1)

-- An item with a byte in front that is neither white space nor a separator is kept.
pub split_list_solid :
    (separator c : ℕ) (s : Bytes)
    → is_space c ≡ false
    → c ≢ separator
    → split_list (c ∷ s) separator ≢ []
unfolding split_list
split_list_solid separator c s solid ne e =
    keep_trimmed_solid c (pieces (λ b. b == separator) s) solid
      (rw (← pieces_cons (λ b. b == separator) c s (ground arith)) e)
