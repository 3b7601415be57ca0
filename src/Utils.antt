-- ===== src/Utils.antt =====
-- src/utils/
pub mod Timeval
pub mod Address
pub mod Url
