-- ===== src/Object.antt =====
-- dynamic/object.
pub mod Metadata
pub mod Finalizers
pub mod Status
pub mod Conditions
