-- ===== src/Isaac.antt =====
-- Package isaac: voteproofs and what a node remembers of them.
pub mod Voteproof
pub mod Suffrage
pub mod LastPoint
pub mod LastVoteproofs
pub mod Operation
pub mod Processors
pub mod VoteproofValid
pub mod ExpelPool
pub mod ExpelVoting
