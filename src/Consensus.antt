-- ===== src/Consensus.antt =====
-- internal/consensus: votes, proposals, the proposer's schedule, sealing and the BFT engine.
pub mod Vote
pub mod Leader
pub mod Seal
pub mod Bft
pub mod Producer
