-- ===== src/Unix.antt =====
-- The Unix domain interface, src/unix/u_*.c: sockets of the family AF_UNIX over mailslots.
mod Tests
mod Witnesses
pub mod Types
pub mod Message
pub mod Path
pub mod Close
pub mod Send
pub mod Recv
pub mod Dgram
pub mod Names
pub mod Open
pub mod Handshake
pub mod Accept
pub mod Pair
pub mod Control
pub mod Stream
pub mod Datagrams
