-- ===== src/Consensus/Bft/Messages.antt =====
-- bft.go: proposals and votes on the wire of internal/p2p, where a vote's type is a plain text.
pub mod RoundTrip
use east_validator.Prelude.{ℕ, List, Option, none, some, if◌then◌else◌}
use east_validator.Prelude.Text.{Text, codes, text_eq}
use east_validator.Tx.{Transaction}
use east_validator.Consensus.Vote.{
  Proposal, Vote, VoteType, prevote, precommit, other, vote_type_text,
}

pub record BftVote : Type 0 where
  pub type : Text
  pub height : ℕ
  pub round : ℕ
  pub block_hash : Text
  pub voter : Text
  pub timestamp : ℕ
  pub signature : Text

-- The conversion `VoteType(s)`.
unfoldable pub vote_type_of : Text → VoteType
vote_type_of s =
    if text_eq s (codes "prevote")
    then prevote
    else if text_eq s (codes "precommit")
    then precommit
    else other s

unfoldable pub vote_to_p2p : Vote → BftVote
vote_to_p2p v = record {
  type = vote_type_text v.type;
  height = v.height;
  round = v.round;
  block_hash = v.block_hash;
  voter = v.voter;
  timestamp = v.timestamp;
  signature = v.signature;
}

-- `none` is nil.
unfoldable pub vote_from_p2p : Option BftVote → Option Vote
unfolding vote_type_of
vote_from_p2p none = none
vote_from_p2p (some v) = some (record {
  type = vote_type_of v.type;
  height = v.height;
  round = v.round;
  block_hash = v.block_hash;
  voter = v.voter;
  timestamp = v.timestamp;
  signature = v.signature;
})

pub record BftProposal : Type 0 where
  pub height : ℕ
  pub round : ℕ
  pub block_hash : Text
  pub prev_hash : Text
  pub merkle_root : Text
  pub timestamp : ℕ
  pub proposer : Text
  pub tx_hashes : List Text
  pub txs : List Transaction
  pub pol_round : ℕ
  pub signature : Text

unfoldable pub proposal_to_p2p : Proposal → BftProposal
proposal_to_p2p p = record {
  height = p.height;
  round = p.round;
  block_hash = p.block_hash;
  prev_hash = p.prev_hash;
  merkle_root = p.merkle_root;
  timestamp = p.timestamp;
  proposer = p.proposer;
  tx_hashes = p.tx_hashes;
  txs = p.txs;
  pol_round = p.pol_round;
  signature = p.signature;
}

unfoldable pub proposal_from_p2p : Option BftProposal → Option Proposal
proposal_from_p2p none = none
proposal_from_p2p (some p) = some (record {
  height = p.height;
  round = p.round;
  block_hash = p.block_hash;
  prev_hash = p.prev_hash;
  merkle_root = p.merkle_root;
  timestamp = p.timestamp;
  proposer = p.proposer;
  tx_hashes = p.tx_hashes;
  txs = p.txs;
  pol_round = p.pol_round;
  signature = p.signature;
})
