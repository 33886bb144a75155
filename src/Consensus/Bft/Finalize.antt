-- ===== src/Consensus/Bft/Finalize.antt =====
-- bft.go: counting votes, and what a quorum of prevotes or precommits does.
use east_validator.Prelude.{
  ℕ, zero, suc, ◌+◌, Bool, true, false, not, ◌&&◌, List, [], ◌∷◌, ◌++◌, Option, none, some, leb,
  ◌==◌, if◌then◌else◌,
}
use east_validator.Prelude.Text.{Text, text_eq, is_empty}
use east_validator.Prelude.Maps.{lookup, insert, text_key}
use east_validator.Crypto.{Crypto}
use east_validator.Tx.{Transaction}
use east_validator.State.{Store, BlockHeader}
use east_validator.State.Accounts.{get_or}
use east_validator.State.Blocks.{save_block}
use east_validator.Consensus.Vote.{Vote, precommit, Proposal, quorum_size}
use east_validator.Consensus.Seal.{SealResult, seal_from_proposal}
use east_validator.Consensus.Bft.{
  RoundStep, new_height_step, propose_step, prevote_step, precommit_step, commit_step, Engine, Node,
  block_announce, commit_cert, commit_callback, with_engine, publish, validator_count, next_round,
  advance_height, broadcast_vote,
}
use east_validator.Errors.{Result, ok, err}

-- `counts[v.BlockHash]++` over the votes. The order of a map is unspecified: it is the list's.
unfoldable pub tally : List (Text × Vote) → List (Text × ℕ)
tally [] = []
tally ((voter, v) ∷ votes) =
    let counts = tally votes in
    insert v.block_hash (get_or (lookup v.block_hash counts) 0 + 1) counts

unfoldable pub count_of : Text → List (Text × ℕ) → ℕ
count_of hash counts = get_or (lookup hash counts) 0

-- The first hash with `q` votes; `named` asks for one that is not nil.
unfoldable pub find_quorum : Bool → ℕ → List (Text × ℕ) → Option Text
find_quorum named q [] = none
find_quorum named q ((hash, c) ∷ counts) =
    if leb q c && not (named && is_empty hash) then some hash else find_quorum named q counts

unfoldable pub lock_on : Text → Engine → Engine
lock_on hash e = if is_empty hash then e else record e {
  locked_hash = hash;
  locked_round = e.round;
  valid_hash = hash;
  valid_round = e.round;
}

abbrev pub is_step : RoundStep → RoundStep → Bool
is_step new_height_step new_height_step = true
is_step propose_step propose_step = true
is_step prevote_step prevote_step = true
is_step precommit_step precommit_step = true
is_step commit_step commit_step = true
is_step _ _ = false

unfoldable pub votes_for : Text → List (Text × Vote) → ℕ
votes_for hash [] = 0
votes_for hash ((voter, v) ∷ votes) =
    let rest = votes_for hash votes in if text_eq v.block_hash hash then suc rest else rest

abbrev pub matching : Text → Option Proposal → Option Proposal
matching hash none = none
matching hash (some p) = if text_eq p.block_hash hash then some p else none

module _ (lib : Crypto) where
  unfoldable pub to_precommit : ℕ → Text → Node → Node
  to_precommit now hash n =
      broadcast_vote lib now precommit hash
        (with_engine (record (lock_on hash n.engine) { step = precommit_step }) n)

  unfoldable pub decide_prevotes : ℕ → ℕ → List (Text × ℕ) → Option Text → Node → Node
  unfolding to_precommit
  decide_prevotes now q counts (some hash) n = to_precommit now hash n
  decide_prevotes now q counts none n =
      if leb q (count_of [] counts) then to_precommit now [] n else n

  unfoldable pub try_finalize_prevotes : ℕ → Node → Node
  unfolding decide_prevotes
  try_finalize_prevotes now n =
      let q = quorum_size (validator_count n.leader) in
      let counts = tally n.engine.prevotes in
      if is_step n.engine.step prevote_step && not (q == 0)
      then decide_prevotes now q counts (find_quorum false q counts) n
      else n

  unfoldable pub announce_commit : ℕ → BlockHeader → ℕ → List Transaction → Node → Node
  announce_commit round h votes applied n =
      let sent =
        publish (commit_cert h.height round h.hash votes) (publish (block_announce h applied) n) in
      if sent.has_callback
      then record sent { out = sent.out ++ commit_callback h applied ∷ [] }
      else sent

  abbrev pub certified : ℕ → ℕ → BlockHeader → BlockHeader
  certified round votes h = record h { last_commit_round = round; last_commit_votes = votes }

  -- After sealFromProposal. A failed seal advances the height with nothing saved.
  unfoldable pub commit_sealed : ℕ → ℕ → Store × Result SealResult → Node → Node
  unfolding announce_commit
  commit_sealed now votes (s, err e) n = record n { engine = advance_height n.engine; store = s }
  commit_sealed now votes (s, ok sealed) n =
      let h = certified n.engine.round votes sealed.header in
      let saved : Node = record n {
        engine = record n.engine {
          last_commit_at = some now;
          committing = suc n.engine.committing;
        };
        store = save_block h s;
      } in
      announce_commit n.engine.round h votes sealed.txs saved

  unfoldable pub commit_proposal : ℕ → ℕ → Option Proposal → Node → Node
  unfolding commit_sealed
  commit_proposal now votes none n = with_engine (advance_height n.engine) n
  commit_proposal now votes (some p) n =
      commit_sealed now votes
        (seal_from_proposal lib p n.engine.pending_txs n.engine.priv_key n.store) n

  -- commitLocked up to where it releases the lock for the block interval.
  unfoldable pub commit : ℕ → Text → ℕ → Node → Node
  unfolding commit_proposal
  commit now hash votes n = commit_proposal now votes (matching hash n.engine.proposal) n

  unfoldable pub decide_precommits : ℕ → ℕ → List (Text × ℕ) → Option Text → Node → Node
  decide_precommits now q counts (some hash) n =
      commit now hash (votes_for hash n.engine.precommits)
        (with_engine (record n.engine { step = commit_step }) n)
  decide_precommits now q counts none n =
      if leb q (count_of [] counts) then with_engine (next_round n.engine) n else n

  unfoldable pub try_finalize_precommits : ℕ → Node → Node
  unfolding decide_precommits
  try_finalize_precommits now n =
      let q = quorum_size (validator_count n.leader) in
      let counts = tally n.engine.precommits in
      if is_step n.engine.step precommit_step && not (q == 0)
      then decide_precommits now q counts (find_quorum true q counts) n
      else n

  unfoldable pub resume_from : ℕ → Node → Node
  resume_from zero n = n
  resume_from (suc k) n = with_engine (record (advance_height n.engine) { committing = k }) n

  -- commitLocked past the wait: the lock is held again.
  unfoldable pub resume_commit : Node → Node
  unfolding resume_from
  resume_commit n = resume_from n.engine.committing n
