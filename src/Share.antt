-- ===== src/Share.antt =====
-- Share links in native/share_link_parser.cpp: `parse_profile` and the parsers that it calls.
pub mod Words
pub mod Vless
pub mod Vmess
pub mod Shadowsocks
pub mod Hysteria
pub mod Dispatch
pub mod Complete
pub mod Extract
