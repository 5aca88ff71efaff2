-- ===== src/Json.antt =====
-- JSON text in native/share_link_parser.cpp: writing objects field by field, and reading single
-- fields out of a text without parsing it.
pub mod Escape
pub mod Fields
pub mod Writer
pub mod Rows
pub mod Value
pub mod Serialize
pub mod Parser
