-- ===== src/States.antt =====
-- Package isaac/states: the ballotbox.
pub mod VoteRecords
pub mod Ballotbox
pub mod Switch
