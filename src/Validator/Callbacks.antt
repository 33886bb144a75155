-- ===== src/Validator/Callbacks.antt =====
-- cmd/validator/main.go and bft.go: what an engine publishes on the consensus topic, and what the
-- callback of another node does with it. The JSON of the topic's messages is not modelled.
use east_validator.Prelude.{ℕ, ◌≡◌, refl, ◌∙◌, ap, List, [], ◌∷◌, Option, none, some, true, All}
use east_validator.Crypto.{Crypto}
use east_validator.Consensus.Vote.{is_vote_type}
use east_validator.Consensus.Bft.{
  Message, Node, proposal_msg, vote_msg, block_announce, commit_cert, commit_callback,
}
use east_validator.Consensus.Bft.Messages.{proposal_from_p2p, proposal_to_p2p, vote_to_p2p}
use east_validator.Consensus.Bft.Messages.RoundTrip.{vote_from_p2p-vote_to_p2p}
use east_validator.Consensus.Bft.Handlers.{handle_proposal, handle_vote}
use east_validator.Validator.{ConsensusMsg, take_vote, on_consensus}
use east_validator.Validator

-- What is published on the consensus topic of a message that leaves the engine.
unfoldable pub published : Message → Option ConsensusMsg
published (proposal_msg p) = some (Validator.proposal_msg (some (proposal_to_p2p p)))
published (vote_msg v) = some (Validator.vote_msg (some (vote_to_p2p v)))
published (commit_cert height round hash votes) = some Validator.commit_msg
published (block_announce h txs) = none
published (commit_callback h txs) = none

-- The engine signs prevotes and precommits only.
unfoldable pub IsSendable : Message → Type 0
IsSendable (vote_msg v) = is_vote_type v.type ≡ true
IsSendable _ = Unit {0}

module _ (lib : Crypto) where
  abbrev deliver_one : ℕ → Option ConsensusMsg → Node → Node
  deliver_one now none n = n
  deliver_one now (some m) n = on_consensus lib now m n

  -- The messages that an engine has let out reach another node, each at a time.
  unfoldable pub deliver : List (ℕ × Message) → Node → Node
  unfolding published on_consensus
  deliver [] n = n
  deliver ((now, m) ∷ ms) n = deliver ms (deliver_one now (published m) n)

  -- What the receiving engine is meant to do with a message of another engine.
  unfoldable pub handle : ℕ → Message → Node → Node
  handle now (proposal_msg p) n = handle_proposal lib now p n
  handle now (vote_msg v) n = handle_vote lib now v n
  handle now _ n = n

  unfoldable pub handle_all : List (ℕ × Message) → Node → Node
  unfolding handle
  handle_all [] n = n
  handle_all ((now, m) ∷ ms) n = handle_all ms (handle now m n)

  deliver_one-handle :
      (now : ℕ) (m : Message) (n : Node)
      → IsSendable m
      → deliver_one now (published m) n ≡ handle now m n
  unfolding IsSendable published handle on_consensus proposal_from_p2p proposal_to_p2p
  deliver_one-handle now (proposal_msg p) n sendable = refl
  deliver_one-handle now (vote_msg v) n sendable =
      ap (λ o. take_vote lib now o n) (vote_from_p2p-vote_to_p2p v sendable)
  deliver_one-handle now (block_announce h txs) n sendable = refl
  deliver_one-handle now (commit_cert height round hash votes) n sendable = refl
  deliver_one-handle now (commit_callback h txs) n sendable = refl

  -- Whatever messages an engine publishes, with votes that are prevotes or precommits, another node
  -- to which they are delivered in some order ends in the state in which its engine has handled, in
  -- that order, exactly the proposals and the votes as they were signed, and nothing else.
  pub deliver-handle_all :
      (ms : List (ℕ × Message)) (n : Node)
      → All (λ (e : ℕ × Message). IsSendable e.1) ms
      → deliver ms n ≡ handle_all ms n
  unfolding deliver handle_all
  deliver-handle_all [] n sendable = refl
  deliver-handle_all ((now, m) ∷ ms) n sendable =
      ap (deliver ms) (deliver_one-handle now m n sendable.0)
      ∙ deliver-handle_all ms (handle now m n) sendable.1
