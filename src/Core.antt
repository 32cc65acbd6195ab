-- ===== src/Core.antt =====
-- consensus/src/core.rs: the consensus core.
pub mod State
pub mod Outside
pub mod Voting
pub mod Commit
pub mod Proposals
pub mod Aba
pub mod ViewChange
pub mod Run
pub mod Alive
