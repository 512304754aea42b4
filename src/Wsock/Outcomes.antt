-- ===== src/Wsock/Outcomes.antt =====
-- What the functions of src/wsock answer, and what they keep.
pub mod Errors
pub mod Blocking
pub mod Data
