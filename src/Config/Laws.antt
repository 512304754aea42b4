-- ===== src/Config/Laws.antt =====
-- The theorems about what src/ reads from the configuration.
pub mod Servers
pub mod Hosts
pub mod Address
pub mod Files
