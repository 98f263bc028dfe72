-- ===== src/Base.antt =====
-- Package base: the values that every other package speaks of.
pub mod Point
pub mod StagePoint
pub mod Vote
pub mod Threshold
