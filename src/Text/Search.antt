-- ===== src/Text/Search.antt =====
-- The laws of the searches: where a byte is found, and that the pieces spell the text.
use entropy_vpn.Base.{ℕ, false, [], ◌∷◌, ◌++◌, none, some, ◌≡◌, refl, ◌≢◌, arith, Bytes, Lacks}
use entropy_vpn.Text.{cut_first, cut_last, strip_prefix, cut_seq, contains}

pub cut_first_hit : (b : ℕ) (p q : Bytes) → Lacks b p → cut_first b (p ++ b ∷ q) ≡ some (p, q)
unfolding cut_first
cut_first_hit b [] q h = ground arith
cut_first_hit b (c ∷ p) q h = ground (arith, cut_first_hit b p q)

pub cut_first_miss : (b : ℕ) (s : Bytes) → Lacks b s → cut_first b s ≡ none
unfolding cut_first
cut_first_miss b [] h = refl
cut_first_miss b (c ∷ s) h = ground (arith, cut_first_miss b s)

pub cut_last_miss : (b : ℕ) (s : Bytes) → Lacks b s → cut_last b s ≡ none
unfolding cut_last
cut_last_miss b [] h = refl
cut_last_miss b (c ∷ s) h = ground (arith, cut_last_miss b s)

pub cut_last_hit : (b : ℕ) (p q : Bytes) → Lacks b q → cut_last b (p ++ b ∷ q) ≡ some (p, q)
unfolding cut_last
cut_last_hit b [] q h = ground (arith, cut_last_miss b q)
cut_last_hit b (c ∷ p) q h = rw (cut_last_hit b p q h)

pub strip_prefix-append : (p s : Bytes) → strip_prefix p (p ++ s) ≡ some s
unfolding strip_prefix
strip_prefix-append [] s = refl
strip_prefix-append (c ∷ p) s = ground (arith, strip_prefix-append p s)

strip_prefix_ne : (b c : ℕ) (n s : Bytes) → c ≢ b → strip_prefix (b ∷ n) (c ∷ s) ≡ none
unfolding strip_prefix
strip_prefix_ne b c n s h = ground arith

-- A text is found where its first byte first stands, if it stands there.
pub cut_seq_hit :
    (b : ℕ) (n p q : Bytes) → Lacks b p → cut_seq (b ∷ n) (p ++ (b ∷ n) ++ q) ≡ some (p, q)
unfolding cut_seq
cut_seq_hit b n [] q h = rw (strip_prefix-append (b ∷ n) q)
cut_seq_hit b n (c ∷ p) q h =
    rw (strip_prefix_ne b c n (p ++ (b ∷ n) ++ q) h.0, cut_seq_hit b n p q h.1)

pub cut_seq_miss : (b : ℕ) (n s : Bytes) → Lacks b s → cut_seq (b ∷ n) s ≡ none
unfolding cut_seq
cut_seq_miss b n [] h = refl
cut_seq_miss b n (c ∷ s) h = rw (strip_prefix_ne b c n s h.0, cut_seq_miss b n s h.1)

pub contains-Lacks : (b : ℕ) (s : Bytes) → Lacks b s → contains b s ≡ false
contains-Lacks b [] h = refl
contains-Lacks b (c ∷ s) h = ground (arith, contains-Lacks b s)
