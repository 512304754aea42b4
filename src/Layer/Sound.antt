-- ===== src/Layer/Sound.antt =====
-- Well-formed states of the socket layer, and what is asked of an interface.
mod Honest
mod Frame
mod Results
pub use Honest.*
pub use Results.*
pub use Frame.*
