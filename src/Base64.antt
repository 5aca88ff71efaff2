-- ===== src/Base64.antt =====
-- `base64_decode` and `try_decode_subscription_base64_text` of native/share_link_parser.cpp.
pub mod Padding
pub mod RoundTrip
pub mod Errors
use entropy_vpn.Base.{
  ℕ, zero, suc, ◌+◌, ◌-◌, ◌*◌, ◌/◌, ◌%◌, ◌^◌, Bool, true, false, ◌&&◌, ◌||◌, List, [], ◌∷◌, ◌++◌,
  Option, none, some, Bytes, codes, ◌==◌, leb, if◌then◌else◌, is_empty, length,
}
use entropy_vpn.Result.{Result, ok, err, ◌>>=◌}
use entropy_vpn.Text.{remove_spaces, trim, cut_seq, without_utf8_bom_markers, is_some}

-- `decoded`, with -1 as `none`. The tests exclude one another, so their order does not matter.
pub sextet : ℕ → Option ℕ
sextet c =
    if leb b'A' c && leb c b'Z'
    then some (c - b'A')
    else if leb b'a' c && leb c b'z'
    then some (c - b'a' + 26)
    else if leb b'0' c && leb c b'9'
    then some (c - b'0' + 52)
    else if c == b'+' || c == b'-'
    then some 62
    else if c == b'/' || c == b'_'
    then some 63
    else none

-- `while (value.size() % 4 != 0) value.push_back('=')`; three rounds are enough.
pub pad : ℕ → Bytes → Bytes
pad zero value = value
pad (suc rounds) value =
    let more = pad rounds (value ++ b'=' ∷ []) in if length value % 4 == 0 then value else more

abbrev pub invalid_payload : Bytes
invalid_payload = codes "Base64 payload is invalid."

-- The loop. `bits` is `valb + 8`, the bits of `val` not yet written; `val` is a 32-bit pattern,
-- and since `valb` is at most 4, `(val >> valb) & 0xFF` reads its low twelve bits only.
pub decode_loop : Bytes → ℕ → ℕ → Bytes → Result Bytes
decode_loop [] val bits out = ok out
decode_loop (ch ∷ value) val bits out = if ch == b'=' then ok out else elim (sextet ch) [
  | none ↦ err invalid_payload
  | some decoded ↦
      let val' = (val * 64 + decoded) % 2 ^ 32 in
      let write =
        decode_loop value val' (bits + 6 - 8) (out ++ val' / 2 ^ (bits + 6 - 8) % 256 ∷ []) in
      let wait = decode_loop value val' (bits + 6) out in if leb 8 (bits + 6) then write else wait
]

unfoldable pub base64_decode : Bytes → Result Bytes
unfolding pad decode_loop sextet
base64_decode value = decode_loop (pad 3 (remove_spaces value)) 0 0 []

-- An empty text stands for "not Base64", as in the code; an exception is caught by the caller.
unfoldable pub try_decode_subscription_base64_text : Bytes → Result Bytes
try_decode_subscription_base64_text raw =
    let normalized = remove_spaces (without_utf8_bom_markers raw) in
    if is_empty normalized || is_some (cut_seq (codes "://") normalized)
    then ok []
    else do decoded ← base64_decode normalized; ok (trim decoded)
