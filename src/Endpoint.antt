-- ===== src/Endpoint.antt =====
-- Server data out of a configuration of Xray or sing-box: `core_config_profile_json` of
-- native/share_link_parser.cpp.
pub mod Read
pub mod Scores
pub mod Xray
pub mod SingBox
pub mod Resolve
pub mod Profile
pub mod Known
