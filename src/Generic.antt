-- ===== src/Generic.antt =====
-- controller/generic: the controller of a watch and its attachments.
pub mod Selection
pub mod Queue
pub mod Calls
pub mod Watch
