-- ===== src/Selector.antt =====
-- controller/common/selector: which resources a controller watches and claims.
pub mod Labels
pub mod Slice
pub mod Field
pub mod Reference
pub mod Evaluator
