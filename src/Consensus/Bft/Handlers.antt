-- ===== src/Consensus/Bft/Handlers.antt =====
-- bft.go: `HandleProposal` and `HandleVote`, each one step under the engine's lock.
use east_validator.Prelude.{
  ℕ, Bool, true, false, not, ◌&&◌, ◌||◌, List, [], ◌∷◌, ◌++◌, Option, none, some, length, ltb, ◌==◌,
  if◌then◌else◌,
}
use east_validator.Prelude.Int.{lt32, inc64}
use east_validator.Prelude.Text.{Text, codes, text_eq, equal_fold, to_lower, is_empty}
use east_validator.Prelude.Maps.{lookup, insert, text_key}
use east_validator.Crypto.{Crypto}
use east_validator.Tx.{Transaction}
use east_validator.State.{Store}
use east_validator.State.Blocks.{get_latest_height}
use east_validator.State.Roster.{is_jailed}
use east_validator.Consensus.Vote.{
  Vote, VoteType, prevote, precommit, other, Proposal, vote_type_text, verify_vote,
  verify_proposal_bft,
}
use east_validator.Consensus.Leader.{
  LeaderSchedule, leader_for_height, is_some, jail_on_equivocation,
}
use east_validator.Consensus.Seal.{recompute_block_hash, expected_prev, is_allowed}
use east_validator.Consensus.Bft.{
  propose_step, step_number, Engine, Node, VoteKey, with_engine, adopt_round, enter_prevote,
}
use east_validator.Consensus.Bft.Finalize.{is_step, try_finalize_prevotes, try_finalize_precommits}
use east_validator.Errors.{
  Result, ◌>>=◌, ◌>>◌, guard, is_ok, or_else, height_mismatch, prev_hash_mismatch,
  block_hash_mismatch,
}

-- What comes of the round of a message at the engine's height.
pub data RoundCase : Type 0 where
  higher same_round older : RoundCase

unfoldable pub compare_round : ℕ → ℕ → RoundCase
compare_round got want =
    if lt32 want got then higher else if lt32 got want then older else same_round

abbrev is_nil_txs : List Transaction → Bool
is_nil_txs [] = true
is_nil_txs (t ∷ ts) = false

unfoldable pub accept_proposal : Proposal → Engine → Engine
accept_proposal p e = record e {
  proposal = some p;
  valid_hash = p.block_hash;
  valid_round = p.round;
  pending_txs = if is_nil_txs p.txs then e.pending_txs else p.txs;
}

unfoldable pub expected_leader : ℕ → ℕ → Option LeaderSchedule → Store → Store × Text
expected_leader now height none s = (s, [])
expected_leader now height (some l) s = leader_for_height now height l s

-- Double-sign detection keys a vote by the voter as it is written and the type.
unfoldable pub vote_slot : Vote → Text
vote_slot v = v.voter ++ (codes "|" ++ vote_type_text v.type)

abbrev pub key_of : Vote → VoteKey
key_of v = record { height = v.height; round = v.round; type = v.type; hash = v.block_hash }

unfoldable pub conflicts : Vote → VoteKey → Bool
conflicts v k = k.height == v.height && (k.round == v.round && not (text_eq k.hash v.block_hash))

unfoldable pub punish : ℕ → Vote → Option VoteKey → Store → Store
punish now v none s = s
punish now v (some k) s =
    if conflicts v k
    then or_else (jail_on_equivocation now v.voter v.height v.round k.hash v.block_hash s) s
    else s

unfoldable pub detect_double_sign : ℕ → Vote → Node → Node
unfolding punish
detect_double_sign now v n =
    let votes = n.engine.last_votes in
    record n {
      store = punish now v (lookup (vote_slot v) votes) n.store;
      engine = record n.engine { last_votes = insert (vote_slot v) (key_of v) votes };
    }

-- Membership in the current set; an empty set accepts the local address, no schedule anyone.
unfoldable pub is_known_voter : Text → Text → Option LeaderSchedule → Bool
is_known_voter voter local none = true
is_known_voter voter local (some l) =
    if length l.validators == 0 then equal_fold voter local else is_allowed voter l.validators

-- A higher round at this height is adopted before the voter is known to be a validator.
unfoldable pub adopt_from_vote : Vote → Engine → Engine
adopt_from_vote v e =
    if v.height == e.height && lt32 e.round v.round then adopt_round v.round e else e

module _ (lib : Crypto) where
  unfoldable pub validate_proposal : Proposal → Store → Result (Unit {0})
  validate_proposal p s = do
    guard (p.height == inc64 (get_latest_height s)) height_mismatch
    expected ← expected_prev s
    guard (text_eq p.prev_hash expected) prev_hash_mismatch
    guard
        (text_eq
          (recompute_block_hash lib p.height p.prev_hash p.merkle_root p.timestamp p.proposer)
          p.block_hash)
        block_hash_mismatch

  -- From the check of the step on.
  unfoldable pub consider_proposal : ℕ → Proposal → Node → Node
  unfolding expected_leader
  consider_proposal now p n =
      let (looked, expected) = expected_leader now p.height n.leader n.store in
      let n' : Node = record n { store = looked } in
      let accepted : Node = with_engine (accept_proposal p n'.engine) n' in
      if ltb 1 (step_number n.engine.step)
      then n
      else if not (is_empty expected) && not (equal_fold p.proposer expected)
      then n'
      else if not (is_ok (validate_proposal p looked))
      then n'
      else if is_step accepted.engine.step propose_step
      then enter_prevote lib now accepted
      else accepted

  unfoldable pub proposal_at_height : ℕ → Proposal → RoundCase → Node → Node
  unfolding consider_proposal
  proposal_at_height now p higher n =
      consider_proposal now p (with_engine (adopt_round p.round n.engine) n)
  proposal_at_height now p same_round n = consider_proposal now p n
  proposal_at_height now p older n = n

  unfoldable pub handle_proposal : ℕ → Proposal → Node → Node
  unfolding proposal_at_height
  handle_proposal now p n =
      if is_ok (verify_proposal_bft lib (some p)) && p.height == n.engine.height
      then proposal_at_height now p (compare_round p.round n.engine.round) n
      else n

  -- The `switch` of HandleVote.
  unfoldable pub record_vote : ℕ → VoteType → Vote → Node → Node
  record_vote now prevote v n =
      let e = n.engine in
      let voter = to_lower v.voter in
      if is_some (lookup voter e.prevotes) || not (v.round == e.round)
      then n
      else try_finalize_prevotes lib now
          (with_engine (record e { prevotes = insert voter v e.prevotes }) n)
  record_vote now precommit v n =
      let e = n.engine in
      let voter = to_lower v.voter in
      if is_some (lookup voter e.precommits) || not (v.round == e.round)
      then n
      else try_finalize_precommits lib now
          (with_engine (record e { precommits = insert voter v e.precommits }) n)
  record_vote now (other s) v n = n

  -- Past the signature and the jail.
  unfoldable pub admit_vote : ℕ → Vote → Node → Node
  unfolding record_vote adopt_from_vote detect_double_sign
  admit_vote now v n =
      let adopted : Node = with_engine (adopt_from_vote v n.engine) n in
      if v.height == adopted.engine.height
        && is_known_voter v.voter adopted.engine.local_addr adopted.leader
      then record_vote now v.type v (detect_double_sign now v adopted)
      else adopted

  unfoldable pub handle_vote : ℕ → Vote → Node → Node
  unfolding admit_vote
  handle_vote now v n =
      let (looked, jailed) = is_jailed now v.voter n.store in
      let n' : Node = record n { store = looked } in
      if is_ok (verify_vote lib (some v))
      then (if is_some jailed then n' else admit_vote now v n')
      else n
