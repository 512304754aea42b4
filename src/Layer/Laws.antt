-- ===== src/Layer/Laws.antt =====
-- What the functions of the layer do, branch by branch and one behind another.
pub mod Connection
pub mod Stopping
pub mod Slots
pub mod Creation
