-- ===== src/Share/Dispatch.antt =====
-- `parse_profile` of native/share_link_parser.cpp.
use entropy_vpn.Base.{
  true, false, ◌||◌, [], ◌∷◌, ◌++◌, Option, none, some, Bytes, codes, if◌then◌else◌,
}
use entropy_vpn.Profile.{Profile}
use entropy_vpn.Result.{Result, err}
use entropy_vpn.Share.Hysteria.{parse_hysteria}
use entropy_vpn.Share.Shadowsocks.{parse_shadowsocks}
use entropy_vpn.Share.Vless.{parse_vless_or_trojan}
use entropy_vpn.Share.Vmess.{parse_vmess}
use entropy_vpn.Share.Words.{is}
use entropy_vpn.Text.{lower, cut_seq, first_non_empty_line}
use entropy_vpn.Uri.{unsupported_format}

-- The parser for a scheme in lower case.
unfoldable pub parse_as : Bytes → Bytes → Result Profile
parse_as scheme raw =
    if is scheme "vless"
    then parse_vless_or_trojan raw false
    else if is scheme "trojan"
    then parse_vless_or_trojan raw true
    else if is scheme "vmess"
    then parse_vmess raw
    else if is scheme "ss"
    then parse_shadowsocks raw
    else if is scheme "hysteria"
    then parse_hysteria raw false
    else if is scheme "hysteria2" || is scheme "hy2"
    then parse_hysteria raw true
    else err (codes "Unsupported protocol: " ++ scheme)

unfoldable pub parse_with_scheme : Bytes → Option (Bytes × Bytes) → Result Profile
unfolding parse_as
parse_with_scheme raw none = err unsupported_format
parse_with_scheme raw (some ([], rest)) = err unsupported_format
parse_with_scheme raw (some (c ∷ scheme, rest)) = parse_as (lower (c ∷ scheme)) raw

unfoldable pub parse_line : Bytes → Result Profile
unfolding parse_with_scheme
parse_line [] = err (codes "Connection link is empty.")
parse_line (c ∷ raw) = parse_with_scheme (c ∷ raw) (cut_seq (codes "://") (c ∷ raw))

unfoldable pub parse_profile : Bytes → Result Profile
unfolding parse_line
parse_profile raw_input = parse_line (first_non_empty_line raw_input)
