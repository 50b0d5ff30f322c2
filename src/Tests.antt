-- ===== src/Tests.antt =====
-- Runs of the model of Guardian/src on concrete inputs.
pub mod Wire
pub mod Geometry
pub mod Buildings
pub mod Rooms
pub mod Sessions
pub mod Settings
