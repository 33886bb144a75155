-- ===== src/Consensus/Vote.antt =====
-- internal/consensus/vote.go: votes, proposals and their signatures. A round is an int32 pattern, a
-- height a uint64, a timestamp an int64 pattern.
pub mod Quorum
use east_validator.Prelude.{
  ℕ, zero, suc, ◌+◌, ◌*◌, ◌/◌, ◌≡◌, refl, Bool, true, false, not, ◌||◌, List, [], ◌∷◌, ◌++◌, Option,
  none, some, arith, if◌then◌else◌,
}
use east_validator.Prelude.Text.{Text, codes, to_lower, is_empty}
use east_validator.Prelude.Format.{show_nat, show_int32}
use east_validator.Crypto.{Crypto, sign_eip191, verify_eip191}
use east_validator.Tx.{Transaction}
use east_validator.Errors.{
  Error, Result, ok, err, ◌>>=◌, ◌>>◌, guard, nil_vote, invalid_vote_type, missing_voter,
  nil_proposal, missing_proposer, signature_mismatch,
}

-- `other` is a type text that is neither of the two.
pub data VoteType : Type 0 where
  prevote precommit : VoteType
  other : Text → VoteType

unfoldable pub vote_type_text : VoteType → Text
vote_type_text prevote = codes "prevote"
vote_type_text precommit = codes "precommit"
vote_type_text (other s) = s

-- An empty `block_hash` is a vote for nil.
pub record Vote : Type 0 where
  pub type : VoteType
  pub height : ℕ
  pub round : ℕ
  pub block_hash : Text
  pub voter : Text
  pub timestamp : ℕ
  pub signature : Text

pub record Proposal : Type 0 where
  pub height : ℕ
  pub round : ℕ
  pub block_hash : Text
  pub prev_hash : Text
  pub merkle_root : Text
  pub timestamp : ℕ
  pub proposer : Text
  pub tx_hashes : List Text
  pub txs : List Transaction
  pub pol_round : ℕ
  pub signature : Text

unfoldable pub build_vote_message : VoteType → ℕ → ℕ → Text → Text
unfolding vote_type_text
build_vote_message type height round block_hash =
    let hash = if is_empty block_hash then codes "NIL" else block_hash in
    codes "EASTCHAIN_VOTE|"
    ++ (vote_type_text type
        ++ (codes "|"
            ++ (show_nat height ++ (codes "|" ++ (show_int32 round ++ (codes "|" ++ hash))))))

unfoldable pub build_proposal_bft_message : ℕ → ℕ → Text → Text → Text
build_proposal_bft_message height round block_hash prev_hash =
    codes "EASTCHAIN_BFT_PROPOSAL|"
    ++ (show_nat height
        ++ (codes "|"
            ++ (show_int32 round ++ (codes "|" ++ (block_hash ++ (codes "|" ++ prev_hash))))))

unfoldable pub is_vote_type : VoteType → Bool
is_vote_type prevote = true
is_vote_type precommit = true
is_vote_type (other s) = false

-- The votes that are needed among `n` validators.
unfoldable pub quorum_size : ℕ → ℕ
quorum_size zero = 0
quorum_size (suc zero) = 1
quorum_size (suc (suc n)) = 2 * suc (suc n) / 3 + 1

module _ (lib : Crypto) where
  unfoldable pub sign_vote : VoteType → ℕ → ℕ → Text → Text → Text → ℕ → Result Vote
  sign_vote type height round block_hash voter key now = do
    sig ← sign_eip191 lib (build_vote_message type height round block_hash) key
    ok (record {
      type = type;
      height = height;
      round = round;
      block_hash = block_hash;
      voter = to_lower voter;
      timestamp = now;
      signature = sig;
    })

  -- `none` is nil.
  unfoldable pub verify_vote : Option Vote → Result (Unit {0})
  unfolding is_vote_type
  verify_vote none = err nil_vote
  verify_vote (some v) = do
    guard (is_vote_type v.type) invalid_vote_type
    guard (not (is_empty v.voter || is_empty v.signature)) missing_voter
    matches ←
        verify_eip191 lib (build_vote_message v.type v.height v.round v.block_hash) v.signature
          v.voter
    guard matches signature_mismatch

  unfoldable pub sign_proposal_bft : Proposal → Text → Result Proposal
  sign_proposal_bft p key = do
    sig ← sign_eip191 lib (build_proposal_bft_message p.height p.round p.block_hash p.prev_hash) key
    ok (record p { signature = sig })

  unfoldable pub verify_proposal_bft : Option Proposal → Result (Unit {0})
  verify_proposal_bft none = err nil_proposal
  verify_proposal_bft (some p) = do
    guard (not (is_empty p.proposer || is_empty p.signature)) missing_proposer
    matches ←
        verify_eip191 lib (build_proposal_bft_message p.height p.round p.block_hash p.prev_hash)
          p.signature p.proposer
    guard matches signature_mismatch
