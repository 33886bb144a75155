-- ===== src/Validator.antt =====
-- cmd/validator/main.go: the set of validators at the start, and what the node does with the messages
-- of the p2p network. A peer's id is the text of it; `decodes` is peer.Decode, of libp2p.
pub mod Callbacks
use east_validator.Prelude.{
  ℕ, ◌-◌, Bool, true, false, not, ◌&&◌, ◌||◌, List, [], ◌∷◌, Option, none, some, if◌then◌else◌,
}
use east_validator.Prelude.Int.{two64, lt64}
use east_validator.Prelude.Text.{Text, codes, text_eq, trim_space, is_empty}
use east_validator.Crypto.{Crypto}
use east_validator.Errors.{Result, ok, err, or_else}
use east_validator.Tx.{Transaction}
use east_validator.State.{Store, HeartbeatRecord}
use east_validator.State.Uptime.{record_heartbeat, tier_light, tier_full}
use east_validator.P2p.PeerAddr.{split_commas}
use east_validator.P2p.Scoring.{PeerScorer, add, is_banned}
use east_validator.Consensus.Leader.{LeaderSchedule, set_validators, load_from_store}
use east_validator.Consensus.Seal.{GossipBlockInput, verify_and_save_gossiped_block_strict}
use east_validator.Consensus.Vote.{Proposal, Vote}
use east_validator.Consensus.Bft.{Node}
use east_validator.Consensus.Bft.Handlers.{handle_proposal, handle_vote}
use east_validator.Consensus.Bft.Messages.{BftProposal, BftVote, proposal_from_p2p, vote_from_p2p}
use east_validator.Api.Server.{HeartbeatMsg}

named_parts : List Text → List Text
named_parts [] = []
named_parts (part ∷ parts) =
    let p = trim_space part in let rest = named_parts parts in if is_empty p then rest else p ∷ rest

abbrev set_solo : ℕ → Text → LeaderSchedule × Bool → Store → LeaderSchedule × Store
set_solo now local (l, true) s = (l, s)
set_solo now local (l, false) s =
    if not (is_empty local) then set_validators now (local ∷ []) l s else (l, s)

-- The set from VALIDATORS, else the saved one, else the node itself.
unfoldable pub choose_validators : ℕ → Text → Text → LeaderSchedule → Store → LeaderSchedule × Store
unfolding named_parts
choose_validators now validators local l s =
    if not (is_empty validators)
    then set_validators now (named_parts (split_commas validators)) l s
    else set_solo now local (load_from_store l s) s

-- OnHeartbeat.
unfoldable pub on_heartbeat : ℕ → ℕ → HeartbeatMsg → Store → Store
on_heartbeat now epoch_seconds m s =
    let tier = if text_eq m.tier (codes "full") then tier_full else tier_light in
    elim (record_heartbeat now m.address m.node_id tier epoch_seconds s) [
      | ok (after, rec) ↦ if is_empty m.address then s else after
      | err e ↦ s
    ]

-- node.go's ReportPeer. `delta` is an int.
unfoldable pub report_peer : (Text → Bool) → ℕ → Text → ℕ → PeerScorer → PeerScorer
report_peer decodes now id delta scorer =
    let (looked, banned) = is_banned now id scorer in
    if is_empty id || not (decodes id)
    then scorer
    else if lt64 delta 0
    then (if banned then looked else add now id delta looked)
    else add now id delta scorer

-- A block on the p2p network, with the peer that it comes from.
pub record GossipedBlock : Type 0 where
  pub height : ℕ
  pub hash : Text
  pub prev_hash : Text
  pub timestamp : ℕ
  pub proposer : Text
  pub signature : Text
  pub txs : List (Option Transaction)
  pub from_peer : Text

-- The allowed proposers are the schedule's.
unfoldable pub block_input : GossipedBlock → LeaderSchedule → GossipBlockInput
block_input a l = record {
  height = a.height;
  hash = a.hash;
  prev_hash = a.prev_hash;
  timestamp = a.timestamp;
  proposer = a.proposer;
  signature = a.signature;
  txs = a.txs;
  allowed_proposers = l.validators;
}

abbrev minus_ten : ℕ
minus_ten = two64 - 10

abbrev pub verdict : Result (Unit {0}) → ℕ
verdict (ok passed) = 2
verdict (err e) = minus_ten

-- A message of the consensus topic, by its kind.
pub data ConsensusMsg : Type 0 where
  proposal_msg : Option BftProposal → ConsensusMsg
  vote_msg : Option BftVote → ConsensusMsg
  commit_msg : ConsensusMsg
  other_msg : ConsensusMsg

module _ (lib : Crypto) where
  -- OnBlock: the store and the score of the peer.
  unfoldable pub on_block :
      (Text → Bool)
      → Text
      → ℕ
      → GossipedBlock
      → LeaderSchedule
      → Store × PeerScorer
      → Store × PeerScorer
  unfolding block_input report_peer
  on_block decodes oracle now a l (s, scorer) =
      let (after, result) =
        verify_and_save_gossiped_block_strict lib oracle now (block_input a l) s in
      (after, report_peer decodes now a.from_peer (verdict result) scorer)

  abbrev pub take_proposal : ℕ → Option Proposal → Node → Node
  take_proposal now none n = n
  take_proposal now (some p) n = handle_proposal lib now p n

  abbrev pub take_vote : ℕ → Option Vote → Node → Node
  take_vote now none n = n
  take_vote now (some v) n = handle_vote lib now v n

  -- OnConsensus.
  unfoldable pub on_consensus : ℕ → ConsensusMsg → Node → Node
  on_consensus now (proposal_msg p) n = take_proposal now (proposal_from_p2p p) n
  on_consensus now (vote_msg v) n = take_vote now (vote_from_p2p v) n
  on_consensus now commit_msg n = n
  on_consensus now other_msg n = n
