-- ===== src/Inet.antt =====
-- Internet addresses as text and as numbers: the files src/inet/i_*.c.
pub mod Order
pub mod Class
pub mod Text
pub mod Network
pub mod RoundTrip
mod Witnesses
