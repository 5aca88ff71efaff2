-- ===== src/Tests/Decoding.antt =====
-- Text, numbers and Base64: `trim`, `split_list`, `parse_int`, `base64_decode`.
use entropy_vpn.Base.{true, [], ◌∷◌, some, codes, ◌≡◌, refl, pos, negsuc, arith}
use entropy_vpn.Base64.Errors.{Outcome, is_pad, base64_decode-Outcome}
use entropy_vpn.Base64.RoundTrip.{encode, base64_decode-encode}
use entropy_vpn.Base64.{base64_decode, try_decode_subscription_base64_text}
use entropy_vpn.Number.RoundTrip.{parse_int-write_int}
use entropy_vpn.Number.{parse_int, write_int}
use entropy_vpn.Result.{ok, err}
use entropy_vpn.Text.Split.{join, split_list-join}
use entropy_vpn.Text.{
  trim, remove_spaces, before_first, split_list, first_non_empty_line, without_utf8_bom_markers,
  cut_first, cut_last, cut_seq,
}

trim_runs : trim (codes " \ta b\n ") ≡ codes "a b"
unfolding trim
trim_runs = refl

first_line_runs : first_non_empty_line (codes "\n  \n vless://x \nnext") ≡ codes "vless://x"
unfolding first_non_empty_line
first_line_runs = refl

marker_runs : without_utf8_bom_markers (0xEF ∷ 0xBB ∷ 0xBF ∷ b'a' ∷ 0xEF ∷ []) ≡ b'a' ∷ 0xEF ∷ []
unfolding without_utf8_bom_markers
marker_runs = refl

searches_run :
    (cut_first b':' (codes "a:b:c") ≡ some (codes "a", codes "b:c"))
    × (cut_last b':' (codes "a:b:c") ≡ some (codes "a:b", codes "c"))
    × (cut_seq (codes "://") (codes "a:b://c") ≡ some (codes "a:b", codes "c"))
unfolding cut_first cut_last cut_seq
searches_run = (refl, refl, refl)

numbers_run :
    (parse_int (codes "-12") (pos 7) ≡ negsuc 11)
    × (parse_int (codes "2147483648") (pos 7) ≡ pos 7)
    × (parse_int (codes "12x") (pos 7) ≡ pos 7)
    × (write_int (negsuc 2147483647) ≡ codes "-2147483648")
unfolding parse_int write_int
numbers_run = (refl, refl, refl, refl)

base64_runs :
    (base64_decode (codes "c2Vj cmV0") ≡ ok (codes "secret"))
    × (base64_decode (codes "c2Vjcm*0") ≡ err (codes "Base64 payload is invalid."))
    × (try_decode_subscription_base64_text (codes "dmxlc3M6Ly94\n") ≡ ok (codes "vless://x"))
    × (try_decode_subscription_base64_text (codes "vless://x") ≡ ok [])
unfolding base64_decode try_decode_subscription_base64_text remove_spaces trim cut_seq
    without_utf8_bom_markers
base64_runs = (refl, refl, refl, refl)

split_list-join_example :
    split_list (join b',' (codes "h2" ∷ codes "http/1.1" ∷ [])) b','
    ≡ codes "h2" ∷ codes "http/1.1" ∷ []
split_list-join_example =
    split_list-join b',' (codes "h2" ∷ codes "http/1.1" ∷ [])
      ((cc, (refl, refl), omega arith), ((cc, (refl, refl), omega arith), tt))

parse_int-write_int_example : parse_int (write_int (negsuc 41)) (pos 0) ≡ negsuc 41
parse_int-write_int_example = parse_int-write_int (negsuc 41) (pos 0) (omega arith)

base64_decode-encode_example : base64_decode (codes "_-8 =\n") ≡ ok (255 ∷ 239 ∷ [])
unfolding encode remove_spaces
base64_decode-encode_example =
    base64_decode-encode true (255 ∷ 239 ∷ []) (codes "_-8 =\n") (codes "=") (omega arith)
      (omega arith) refl

base64_decode-Outcome_example :
    Outcome
      (before_first is_pad (remove_spaces (codes "c2Vj cmV0=x")))
      0
      []
      (base64_decode (codes "c2Vj cmV0=x"))
base64_decode-Outcome_example = base64_decode-Outcome (codes "c2Vj cmV0=x")
