-- ===== src/Layer/Keep.antt =====
-- The public functions of the layer and the well-formed states.
pub mod Bodies
pub mod Binding
pub mod Sending
pub mod Connecting
pub mod Calls
