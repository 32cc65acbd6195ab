-- ===== src/Messages.antt =====
-- consensus/src/messages.rs, one module for each kind of message.
pub mod Tally
pub mod Qc
pub mod Block
pub mod Vote
pub mod Timeout
pub mod Tc
pub mod Aba
pub mod Coin
