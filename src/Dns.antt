-- ===== src/Dns.antt =====
-- The resolver's domain names on the wire, in src/inet/r_comp.c.
pub mod Expand
pub mod Compress
pub mod Numbers
mod Witnesses
