-- ===== src/Csock.antt =====
-- The interface of src/csock: the functions of the driver SOCK.VXD.
mod Witnesses
pub mod Types
pub mod Errors
pub mod Descriptors
pub mod Calls
pub mod Names
pub mod Transfer
pub mod Outcomes
pub mod Table
pub mod Honest
