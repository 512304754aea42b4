-- ===== src/Config.antt =====
-- The configuration of src/: the reader of .ini files, and what is read from the configuration file.
pub mod Profile
pub mod Files
pub mod Address
pub mod Servers
pub mod Hosts
pub mod Laws
mod Witnesses
