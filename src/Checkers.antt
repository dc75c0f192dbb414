-- ===== src/Checkers.antt =====
-- The portable detectors and what they share (checkers/).
pub mod Common
pub mod Run
