-- ===== src/Wsock.antt =====
-- The interface of src/wsock: the functions of the driver WSOCK.VXD.
mod Witnesses
pub mod Errors
pub mod Types
pub mod Calls
pub mod Select
pub mod Transfer
pub mod Options
pub mod Outcomes
