-- ===== src/Tests.antt =====
-- Runs of the definitions, and instances of the theorems, on inputs that a user may paste.
pub mod Decoding
pub mod Links
pub mod Profiles
pub mod Configs
pub mod Trees
pub mod Pings
pub mod Builds
pub mod Settings
pub mod Versions
