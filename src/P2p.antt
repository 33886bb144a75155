-- ===== src/P2p.antt =====
-- internal/p2p: the parts with logic of their own: peer scores, the service of block
-- ranges, and the spellings of addresses.
pub mod Scoring
pub mod BlockSync
pub mod PeerAddr
