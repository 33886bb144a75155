-- ===== src/Consensus/Bft.antt =====
-- internal/consensus/bft.go: the engine's state and the operations that its handlers share. The
-- engine, the schedule, the store and the pool are one `Node`, since the source shares them by
-- pointers. What goes out to peers and to the commit callback is appended to `out`.
pub mod Finalize
pub mod Handlers
pub mod Loop
pub mod Messages
pub mod Locking
pub mod Counting
pub mod Admission
pub mod Agreement
pub mod Steps
use east_validator.Prelude.{
  ℕ, zero, suc, ◌≡◌, refl, Bool, true, false, not, ◌&&◌, ◌||◌, List, [], ◌∷◌, ◌++◌, Option, none,
  some, arith, length, ltb, leb, ◌==◌, if◌then◌else◌,
}
use east_validator.Prelude.Int.{two31, inc64, inc32, minus_one32}
use east_validator.Prelude.Text.{Text, codes, text_eq, is_empty}
use east_validator.Prelude.Maps.{lookup, insert, text_key}
use east_validator.Crypto.{Crypto}
use east_validator.Tx.{Transaction}
use east_validator.Mempool.{Mempool}
use east_validator.State.{Store, BlockHeader}
use east_validator.Consensus.Vote.{Vote, VoteType, prevote, precommit, other, Proposal, sign_vote}
use east_validator.Consensus.Leader.{LeaderSchedule}
use east_validator.Errors.{Result, ok, err}

pub data RoundStep : Type 0 where
  new_height_step propose_step prevote_step precommit_step commit_step : RoundStep

-- The constants count up from 0.
abbrev pub step_number : RoundStep → ℕ
step_number new_height_step = 0
step_number propose_step = 1
step_number prevote_step = 2
step_number precommit_step = 3
step_number commit_step = 4

pub record VoteKey : Type 0 where
  pub height : ℕ
  pub round : ℕ
  pub type : VoteType
  pub hash : Text

pub data Message : Type 0 where
  proposal_msg : Proposal → Message
  vote_msg : Vote → Message
  block_announce : BlockHeader → List Transaction → Message
  -- height, round, block hash and the number of precommits
  commit_cert : ℕ → ℕ → Text → ℕ → Message
  commit_callback : BlockHeader → List Transaction → Message

pub record Engine : Type 0 where
  pub max_txs : ℕ
  pub local_addr : Text
  pub priv_key : Text
  pub height : ℕ
  pub round : ℕ
  pub step : RoundStep
  pub proposal : Option Proposal
  pub locked_hash : Text
  pub locked_round : ℕ
  pub valid_hash : Text
  pub valid_round : ℕ
  pub prevotes : List (Text × Vote)
  pub precommits : List (Text × Vote)
  pub pending_txs : List Transaction
  pub last_votes : List (Text × VoteKey)
  pub last_commit_at : Option ℕ
  -- How many calls of commitLocked have released the lock and wait for the block interval.
  pub committing : ℕ

pub record Node : Type 0 where
  pub engine : Engine
  pub leader : Option LeaderSchedule
  pub store : Store
  pub pool : Option Mempool
  pub has_p2p : Bool
  pub has_callback : Bool
  pub out : List Message

-- NewBFTEngine, from the identity that the environment gives.
abbrev pub new_engine : Text → Text → Engine
new_engine local key = record {
  max_txs = 100;
  local_addr = local;
  priv_key = key;
  height = 0;
  round = 0;
  step = new_height_step;
  proposal = none;
  locked_hash = [];
  locked_round = minus_one32;
  valid_hash = [];
  valid_round = minus_one32;
  prevotes = [];
  precommits = [];
  pending_txs = [];
  last_votes = [];
  last_commit_at = none;
  committing = 0;
}

abbrev pub with_engine : Engine → Node → Node
with_engine e n = record n { engine = e }

abbrev pub publish : Message → Node → Node
publish m n = if n.has_p2p then record n { out = n.out ++ m ∷ [] } else n

unfoldable pub validator_count : Option LeaderSchedule → ℕ
validator_count none = 1
validator_count (some l) = let n = length l.validators in if n == 0 then 1 else n

-- "adopting higher round": what HandleProposal and HandleVote reset.
unfoldable pub adopt_round : ℕ → Engine → Engine
adopt_round round e = record e {
  round = round;
  step = propose_step;
  proposal = none;
  prevotes = [];
  precommits = [];
  pending_txs = [];
}

-- The reset at the end of a round without a decision.
unfoldable pub next_round : Engine → Engine
next_round e = record e {
  round = inc32 e.round;
  step = new_height_step;
  proposal = none;
  prevotes = [];
  precommits = [];
}

unfoldable pub advance_height : Engine → Engine
advance_height e = record e {
  height = inc64 e.height;
  round = 0;
  step = new_height_step;
  proposal = none;
  pending_txs = [];
  prevotes = [];
  precommits = [];
  locked_hash = [];
  locked_round = minus_one32;
  valid_hash = [];
  valid_round = minus_one32;
}

unfoldable pub own_vote : VoteType → Vote → Engine → Engine
own_vote prevote v e = record e { prevotes = insert e.local_addr v e.prevotes }
own_vote precommit v e = record e { precommits = insert e.local_addr v e.precommits }
own_vote (other s) v e = e

abbrev pub is_locked : Engine → Bool
is_locked e = ltb e.locked_round two31 && not (is_empty e.locked_hash)

-- What a prevote is cast for: nil without a proposal, and the locked hash while locked.
unfoldable pub prevote_choice : Engine → Option Proposal → Text
prevote_choice e none = []
prevote_choice e (some p) = if is_locked e then e.locked_hash else p.block_hash

module _ (lib : Crypto) where
  unfoldable pub record_own : VoteType → Result Vote → Node → Node
  unfolding own_vote
  record_own type (err e) n = n
  record_own type (ok v) n = publish (vote_msg v) (with_engine (own_vote type v n.engine) n)

  unfoldable pub broadcast_vote : ℕ → VoteType → Text → Node → Node
  unfolding record_own
  broadcast_vote now type block_hash n =
      let e = n.engine in
      if is_empty e.priv_key || is_empty e.local_addr
      then n
      else record_own type
          (sign_vote lib type e.height e.round block_hash e.local_addr e.priv_key now) n

  unfoldable pub enter_prevote : ℕ → Node → Node
  enter_prevote now n =
      let e : Engine = record n.engine { step = prevote_step } in
      broadcast_vote now prevote (prevote_choice e e.proposal) (with_engine e n)
