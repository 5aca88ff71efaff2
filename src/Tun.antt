-- ===== src/Tun.antt =====
-- The changes that native/share_link_parser.cpp makes to a sing-box configuration for a TUN inbound.
pub mod Fields
pub mod Inbounds
pub mod Rules
pub mod Apply
pub mod Matcher
pub mod Hijack
pub mod Insert
pub mod Result
pub mod Family
