-- ===== src/Config/Dns/Ports.antt =====
-- The ports of DNS servers.
use entropy_vpn.Base.{
  ◌≤◌, ◌<◌, true, not, [], ◌∷◌, Option, none, some, Bytes, ◌==◌, ◌≡◌, ℤ, pos, negsuc, arith,
  Bool-cases, inl, inr,
}
use entropy_vpn.Config.Dns.{
  in_port_range, port_or, atoi, bracket_port, one_colon, plain_server, bracket_server,
  host_and_port, doh_server, doh_parts, parse_doh_server, parse_dot_server,
}
use entropy_vpn.Text.{contains, cut_first}

-- A port of TCP or UDP.
abbrev pub IsServerPort : ℤ → Type 0
IsServerPort (pos n) = (0 < n) × (n ≤ 65535)
IsServerPort (negsuc n) = ⊥

IsServerPort-in_port_range : (i : ℤ) → in_port_range i ≡ true → IsServerPort i
IsServerPort-in_port_range (pos n) h = ground arith
IsServerPort-in_port_range (negsuc n) h = ground arith

port_or-IsServerPort : (default i : ℤ) → IsServerPort default → IsServerPort (port_or default i)
port_or-IsServerPort default i h = elim (Bool-cases (in_port_range i)) [
  | inl good ↦ rw good (IsServerPort-in_port_range i good)
  | inr bad ↦ rw bad h
]

bracket_port-IsServerPort :
    (default : ℤ) (after : Bytes) → IsServerPort default → IsServerPort (bracket_port default after)
unfolding bracket_port
bracket_port-IsServerPort default [] h = h
bracket_port-IsServerPort default (c ∷ []) h = h
bracket_port-IsServerPort default (c ∷ d ∷ s) h = elim (Bool-cases (c == b':')) [
  | inl colon ↦ rw colon (port_or-IsServerPort default (atoi (d ∷ s)) h)
  | inr other ↦ rw other h
]

one_colon-IsServerPort :
    (default : ℤ) (host : Bytes) (cut : Option (Bytes × Bytes))
    → IsServerPort default
    → IsServerPort ((one_colon default host cut).1)
unfolding one_colon
one_colon-IsServerPort default host none h = h
one_colon-IsServerPort default host (some (before, after)) h =
    elim (Bool-cases (not (contains b':' after))) [
      | inl single ↦ elim (Bool-cases (in_port_range (atoi after))) [
        | inl good ↦ rw (single, good) (IsServerPort-in_port_range (atoi after) good)
        | inr bad ↦ rw (single, bad) h
      ]
      | inr several ↦ rw several h
    ]

host_and_port-IsServerPort :
    (default : ℤ) (s : Bytes) → IsServerPort default → IsServerPort ((host_and_port default s).1)
unfolding host_and_port plain_server
host_and_port-IsServerPort default [] h = one_colon-IsServerPort default [] (cut_first b':' []) h
host_and_port-IsServerPort default (c ∷ s) h = elim (Bool-cases (c == b'[')) [
  | inl bracket ↦ rw bracket (in_brackets (cut_first b']' s))
  | inr other ↦ rw other (one_colon-IsServerPort default (c ∷ s) (cut_first b':' (c ∷ s)) h)
]
  where
    in_brackets :
        (cut : Option (Bytes × Bytes)) → IsServerPort ((bracket_server default (c ∷ s) cut).1)
    in_brackets none =
        unfold bracket_server plain_server in
        one_colon-IsServerPort default (c ∷ s) (cut_first b':' (c ∷ s)) h
    in_brackets (some (inside, after)) =
        unfold bracket_server in bracket_port-IsServerPort default after h

doh_parts-IsServerPort :
    (remainder : Bytes) (cut : Option (Bytes × Bytes)) → IsServerPort (doh_parts remainder cut).port
unfolding doh_parts doh_server
doh_parts-IsServerPort remainder none = host_and_port-IsServerPort (pos 443) remainder (omega arith)
doh_parts-IsServerPort remainder (some (authority, path)) =
    host_and_port-IsServerPort (pos 443) authority (omega arith)

-- Whatever text is given, the ports of parse_doh_server and of parse_dot_server are from 1 to
-- 65535.
pub parse_server-IsServerPort :
    (value : Bytes)
    → IsServerPort (parse_doh_server value).port × IsServerPort (parse_dot_server value).port
unfolding parse_doh_server parse_dot_server
parse_server-IsServerPort value =
    (doh_parts-IsServerPort _ _, host_and_port-IsServerPort (pos 853) _ (omega arith))
