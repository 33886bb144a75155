-- ===== src/Consensus/Bft/Steps.antt =====
-- bft.go: the engine as a state machine. A step is one critical section of its lock, a message that
-- goes out between two of them, or a change of the store, the pool or the schedule, which the engine
-- shares with the rest of the program and changes outside its lock as well.
pub mod Counted
pub mod Early
mod Propose
pub mod Invariant
pub mod Messages
pub mod Safety
use east_validator.Prelude.{ℕ, ◌≡◌, List, [], Option, some}
use east_validator.Prelude.Text.{Text}
use east_validator.Crypto.{Crypto}
use east_validator.Tx.{Transaction}
use east_validator.Errors.{ok}
use east_validator.Consensus.Seal.{SealResult}
use east_validator.Mempool.{Mempool}
use east_validator.State.{Store}
use east_validator.Consensus.Vote.{Vote, Proposal, sign_proposal_bft}
use east_validator.Consensus.Leader.{LeaderSchedule}
use east_validator.Consensus.Bft.{
  Engine, Node, new_engine, with_engine, advance_height, publish, proposal_msg,
}
use east_validator.Consensus.Bft.Finalize.{
  try_finalize_prevotes, try_finalize_precommits, resume_commit,
}
use east_validator.Consensus.Bft.Handlers.{handle_proposal, handle_vote}
use east_validator.Consensus.Bft.Loop.{
  end_propose, end_prevote, end_precommit, align_to_tip, enter_propose, tell_sealed, own_proposal,
  adopt_own,
}

-- NewBFTEngine, before Start and the first message.
abbrev pub fresh : Text → Text → Node → Node
fresh local key n = with_engine (new_engine local key) n

module _ (lib : Crypto) where
  pub data Step : Node → Node → Type 0 where
    proposal_comes : (now : ℕ) (p : Proposal) (n : Node) → Step n (handle_proposal lib now p n)
    vote_comes : (now : ℕ) (v : Vote) (n : Node) → Step n (handle_vote lib now v n)
    -- The start of `loop`, at any time after messages may come: it keeps the votes at hand.
    loop_aligns : (n : Node) → Step n (align_to_tip lib n)
    round_starts : (now height : ℕ) (n : Node) → Step n (enter_propose now height n)
    -- soloSeal: the sealing itself is a change of the pool and of the store.
    solo_marked :
        (now : ℕ) (n : Node)
        → Step n (with_engine (record n.engine { last_commit_at = some now }) n)
    solo_told : (sealed : SealResult) (n : Node) → Step n (tell_sealed sealed n)
    solo_advances : (n : Node) → Step n (with_engine (advance_height n.engine) n)
    -- buildAndBroadcastProposal: what it builds on was read earlier and may be out of date.
    proposal_stored :
        (height round ts : ℕ) (prev : Text) (txs : List Transaction) (p : Proposal) (n : Node)
        → sign_proposal_bft lib
            (own_proposal lib height round ts prev n.engine.local_addr txs)
            n.engine.priv_key
          ≡ ok p
        → Step n (with_engine (adopt_own p txs n.engine) n)
    proposal_sent : (p : Proposal) (n : Node) → Step n (publish (proposal_msg p) n)
    propose_ends : (now : ℕ) (n : Node) → Step n (end_propose lib now n)
    prevotes_polled : (now : ℕ) (n : Node) → Step n (try_finalize_prevotes lib now n)
    prevote_ends : (now : ℕ) (n : Node) → Step n (end_prevote lib now n)
    precommits_polled : (now : ℕ) (n : Node) → Step n (try_finalize_precommits lib now n)
    precommit_ends : (n : Node) → Step n (end_precommit lib n)
    commit_resumes : (n : Node) → Step n (resume_commit lib n)
    -- gossiped blocks, the HTTP interface and other writers
    store_changes : (s : Store) (n : Node) → Step n (record n { store = s })
    pool_changes : (p : Option Mempool) (n : Node) → Step n (record n { pool = p })
    schedule_changes : (l : Option LeaderSchedule) (n : Node) → Step n (record n { leader = l })

  pub data Reach (s : Node) : Node → Type 0 where
    here : Reach s s
    next : {m n : Node} → Reach s m → Step m n → Reach s n
