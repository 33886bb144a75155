-- ===== src/Consensus/Bft/Messages/RoundTrip.antt =====
-- bft.go: a vote to the wire and back.
use east_validator.Prelude.{◌≡◌, refl, some, true, arith}
use east_validator.Prelude.Text.{text_eq}
use east_validator.Consensus.Vote.{
  Vote, VoteType, prevote, precommit, other, is_vote_type, vote_type_text,
}
use east_validator.Consensus.Bft.Messages.{vote_type_of, vote_to_p2p, vote_from_p2p}

vote_type_of-text : (ty : VoteType) → is_vote_type ty ≡ true → vote_type_of (vote_type_text ty) ≡ ty
unfolding vote_type_of is_vote_type vote_type_text text_eq
vote_type_of-text prevote e = refl
vote_type_of-text precommit e = refl
vote_type_of-text (other s) e = ground (arith, e)

-- A prevote or a precommit that is sent to a peer is received as it was.
pub vote_from_p2p-vote_to_p2p :
    (v : Vote) → is_vote_type v.type ≡ true → vote_from_p2p (some (vote_to_p2p v)) ≡ some v
unfolding vote_from_p2p vote_to_p2p
vote_from_p2p-vote_to_p2p v e = rw (vote_type_of-text v.type e) refl
