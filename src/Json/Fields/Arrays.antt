-- ===== src/Json/Fields/Arrays.antt =====
-- Reading back a written array of strings.
use entropy_vpn.Base.{
  ℕ, zero, suc, ◌≤◌, ◌<◌, List, [], ◌∷◌, ◌++◌, append_assoc, Option, none, some, Bytes, All, ◌≡◌,
  refl, sym, ◌∙◌, ap, arith, length, length-append,
}
use entropy_vpn.Json.Fields.Strings.{IsShort, read_string-json_escape}
use entropy_vpn.Json.Fields.{ends_item, next_item, read_item, more_items, array_items}
use entropy_vpn.Json.Writer.{quoted, more_quoted, quoted_items}
use entropy_vpn.Text.Trim.{trim_start_plain}
use entropy_vpn.Text.{trim_start, from_first}

read_item-quoted :
    (v rest : Bytes)
    → All IsShort v
    → read_item (quoted v ++ rest) ≡ (some v, next_item (from_first ends_item rest))
unfolding read_item quoted
read_item-quoted v rest h = rw (append_assoc, read_string-json_escape v rest h)

next_item_more :
    (w : Bytes) (vs : List Bytes) (rest : Bytes)
    → next_item (from_first ends_item (more_quoted (w ∷ vs) ++ rest))
      ≡ some (quoted w ++ (more_quoted vs ++ rest))
unfolding next_item from_first more_quoted
next_item_more w vs rest = ap some (append_assoc (quoted w) (more_quoted vs) rest)

next_item_end :
    (rest : Bytes) → next_item (from_first ends_item (more_quoted [] ++ b']' ∷ rest)) ≡ none
unfolding next_item from_first more_quoted
next_item_end rest = refl

trim_start-quoted : (v rest : Bytes) → trim_start (quoted v ++ rest) ≡ quoted v ++ rest
unfolding quoted
trim_start-quoted v rest = trim_start_plain _ refl

-- One round reads one string.
array_items_step :
    (fuel : ℕ) (v rest : Bytes) (next : Option Bytes) (vs : List Bytes)
    → All IsShort v
    → next_item (from_first ends_item rest) ≡ next
    → more_items next (array_items fuel) ≡ vs
    → array_items (suc fuel) (quoted v ++ rest) ≡ v ∷ vs
unfolding array_items
array_items_step fuel v rest next vs h e later =
    rw (trim_start-quoted v rest, read_item-quoted v rest h, e) (ap (◌∷◌ v) later)

-- The items of a written array are read back, whatever follows its bracket.
pub array_items-quoted_items :
    (fuel : ℕ) (v : Bytes) (vs : List Bytes) (rest : Bytes)
    → length vs < fuel
    → All (All IsShort) (v ∷ vs)
    → array_items fuel (quoted_items (v ∷ vs) ++ b']' ∷ rest) ≡ v ∷ vs
unfolding quoted_items
array_items-quoted_items zero v vs rest f h = absurd (omega arith)
array_items-quoted_items (suc fuel) v [] rest f h =
    ap (array_items (suc fuel)) (append_assoc (quoted v) (more_quoted []) (b']' ∷ rest))
    ∙ array_items_step fuel v (more_quoted [] ++ b']' ∷ rest) none [] h.0 (next_item_end rest) refl
array_items-quoted_items (suc fuel) v (w ∷ vs) rest f h =
    ap (array_items (suc fuel)) (append_assoc (quoted v) (more_quoted (w ∷ vs)) (b']' ∷ rest))
    ∙ array_items_step fuel v (more_quoted (w ∷ vs) ++ b']' ∷ rest) _ (w ∷ vs) h.0
        (next_item_more w vs (b']' ∷ rest))
        (ap (array_items fuel) (sym (append_assoc (quoted w) (more_quoted vs) (b']' ∷ rest)))
          ∙ array_items-quoted_items fuel w vs rest (omega arith) h.1)

length-quoted : (v : Bytes) → 0 < length (quoted v)
unfolding quoted
length-quoted v = omega arith

length-more_quoted : (vs : List Bytes) → length vs ≤ length (more_quoted vs)
unfolding more_quoted
length-more_quoted [] = omega arith
length-more_quoted (v ∷ vs) =
    omega (arith, length-append {0} (quoted v) (more_quoted vs), length-more_quoted vs)

-- The text of an array is longer than the array, so its length is enough fuel.
pub length-quoted_items :
    (v : Bytes) (vs : List Bytes) (rest : Bytes)
    → length vs < length (quoted_items (v ∷ vs) ++ b']' ∷ rest)
unfolding quoted_items
length-quoted_items v vs rest = omega (
  arith,
  length-append {0} (quoted v ++ more_quoted vs) (b']' ∷ rest),
  length-append {0} (quoted v) (more_quoted vs),
  length-more_quoted vs,
  length-quoted v,
)
