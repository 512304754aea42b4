-- ===== src/Layer.antt =====
-- The socket layer: the public socket functions of src/, which check their arguments and the
-- state of the descriptor and then call the interface that the descriptor names.
pub mod Tests
mod Witnesses
pub mod Types
pub mod Interface
pub mod World
pub mod Names
pub mod Bind
pub mod Connect
pub mod Transfer
pub mod Options
pub mod Close
pub mod Init
pub mod Create
pub mod Accept
pub mod Fsext
pub mod Sound
pub mod Keep
pub mod Reach
pub mod Laws
