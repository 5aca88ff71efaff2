-- ===== src/Config.antt =====
-- The configurations of the cores: the options, the DNS servers, the matchers, and the outbounds.
pub mod Options
pub mod Dns
pub mod Matchers
pub mod Fragments
pub mod SingBox
pub mod Xray
pub mod Routes
pub mod XrayConfig
pub mod SingBoxConfig
