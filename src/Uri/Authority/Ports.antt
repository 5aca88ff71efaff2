-- ===== src/Uri/Authority/Ports.antt =====
-- The port that an endpoint has.
use entropy_vpn.Base.{
  ℕ, ◌≤◌, true, List, [], ◌∷◌, Option, none, some, Bytes, ◌==◌, ◌≡◌, ◌≢◌, refl, sym, ◌∙◌, ℤ, pos,
  negsuc, is_positive, arith, int_max, IsInt, Bool-cases, inl, inr,
}
use entropy_vpn.Number.Bounds.{IsNonneg, IsUnsigned, parse_int-IsInt, parse_int-IsNonneg}
use entropy_vpn.Number.{parse_int}
use entropy_vpn.Result.{Result, ok, err}
use entropy_vpn.Text.Split.{split_list_solid}
use entropy_vpn.Text.{trim, before_first, cut_first, cut_last, split_list}
use entropy_vpn.Uri.Authority.{
  Endpoint, first_server_port, split_port_items, port_items, port_of, with_ports, without_ports,
  after_bracket, bracketed, named, parse_endpoint,
}

-- A port that is no negative number, and fits an `int`.
abbrev pub IsPort : ℤ → Type 0
IsPort (pos n) = n ≤ int_max
IsPort (negsuc n) = ⊥

IsPort-positive : (i : ℤ) → IsInt i → is_positive i ≡ true → IsPort i
IsPort-positive (pos n) h p = h
IsPort-positive (negsuc n) h p = ground arith

IsPort-nonneg : (i : ℤ) → IsInt i → IsNonneg i → IsPort i
IsPort-nonneg (pos n) h p = h
IsPort-nonneg (negsuc n) h p = p

first_server_port-IsPort : (ports : List Bytes) → IsPort (first_server_port ports)
unfolding first_server_port
first_server_port-IsPort [] = omega arith
first_server_port-IsPort (item ∷ ports) =
    let parsed = parse_int (trim (before_first (λ c. c == b'-') item)) (pos 0) in
    elim (Bool-cases (is_positive parsed)) [
      | inl p ↦ rw p (IsPort-positive parsed (parse_int-IsInt _ (pos 0) (omega arith)) p)
      | inr n ↦ rw n (first_server_port-IsPort ports)
    ]

port_items_signed : (c : ℕ) (s : Bytes) → c ≡ b'-' → port_items (c ∷ s) ≡ split_list (c ∷ s) b','
unfolding port_items split_port_items
port_items_signed c s h = ground arith

-- A text with a minus sign in front has an item.
port_items_minus : (c : ℕ) (s : Bytes) → c ≡ b'-' → port_items (c ∷ s) ≢ []
port_items_minus c s h e =
    split_list_solid b',' c s (rw h) (λ comma. ground arith) (sym (port_items_signed c s h) ∙ e)

IsUnsigned-port_items : (s : Bytes) → port_items s ≡ [] → IsUnsigned s
IsUnsigned-port_items [] e = tt
IsUnsigned-port_items (c ∷ s) e = λ minus. port_items_minus c s minus e

port_of-IsPort :
    (port_text : Bytes) (items : List Bytes)
    → port_items port_text ≡ items
    → IsPort (port_of port_text items)
unfolding port_of
port_of-IsPort port_text [] e =
    IsPort-nonneg _ (parse_int-IsInt port_text (pos 0) (omega arith))
      (parse_int-IsNonneg port_text (IsUnsigned-port_items port_text e))
port_of-IsPort port_text (item ∷ items) e = first_server_port-IsPort (item ∷ items)

with_ports-IsPort : (host port_text : Bytes) → IsPort (with_ports host port_text).port
unfolding with_ports
with_ports-IsPort host port_text = port_of-IsPort port_text (port_items port_text) refl

without_ports-IsPort : (host : Bytes) → IsPort (without_ports host).port
unfolding without_ports
without_ports-IsPort host = omega arith

after_bracket-IsPort : (host rest : Bytes) → IsPort (after_bracket host rest).port
unfolding after_bracket
after_bracket-IsPort host [] = without_ports-IsPort host
after_bracket-IsPort host (c ∷ rest) = elim (Bool-cases (c == b':')) [
  | inl colon ↦ rw colon (with_ports-IsPort host rest)
  | inr other ↦ rw other (without_ports-IsPort host)
]

-- The endpoint, if there is one, has a port.
abbrev pub HasPort : Result Endpoint → Type 0
HasPort (ok e) = IsPort e.port
HasPort (err m) = Unit

bracketed-HasPort : (cut : Option (Bytes × Bytes)) → HasPort (bracketed cut)
unfolding bracketed
bracketed-HasPort none = tt
bracketed-HasPort (some ([], rest)) = tt
bracketed-HasPort (some (c ∷ host, rest)) = after_bracket-IsPort (c ∷ host) rest

named-IsPort : (rest : Bytes) (cut : Option (Bytes × Bytes)) → IsPort (named rest cut).port
unfolding named
named-IsPort rest none = without_ports-IsPort rest
named-IsPort rest (some (host, port_text)) = with_ports-IsPort host port_text

pub parse_endpoint-HasPort : (rest : Bytes) → HasPort (parse_endpoint rest)
unfolding parse_endpoint
parse_endpoint-HasPort [] = without_ports-IsPort []
parse_endpoint-HasPort (c ∷ rest) = elim (Bool-cases (c == b'[')) [
  | inl open_bracket ↦ rw open_bracket (bracketed-HasPort (cut_first b']' rest))
  | inr other ↦ rw other (named-IsPort (c ∷ rest) (cut_last b':' (c ∷ rest)))
]
