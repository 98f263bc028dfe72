-- ===== src/Util.antt =====
-- Package util: the hash tree of a block.
pub mod FixedTree
pub mod Ps
pub mod Batch
