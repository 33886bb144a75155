-- ===== src/Tests/Agreement.antt =====
-- Runs of the theorems on the engine's steps and on two engines, at the test's data.
use east_validator.Prelude.{
  All, ◌≡◌, ◌⊎◌, some, ℕ, ◌<◌, ◌≤◌, refl, List, [], ◌∷◌, none, true, false, arith,
}
use east_validator.Prelude.Text.{Text, codes, text_eq}
use east_validator.Prelude.Maps.{lookup, text_key}
use east_validator.State.Roster.{member}
use east_validator.Mempool.Invariant.{Distinct}
use east_validator.Consensus.Vote.{verify_vote, is_vote_type, Vote, prevote, quorum_size}
use east_validator.Consensus.Vote.Quorum.{max_faulty}
use east_validator.Consensus.Bft.Finalize.{votes_for}
use east_validator.Consensus.Bft.Handlers.{handle_vote}
use east_validator.Consensus.Bft.Steps.Counted.{Counted, Once}
use east_validator.Consensus.Bft.Steps.Safety.{Reach-Counted}
use east_validator.Consensus.Bft.Agreement.{Within, equivocators, quorums_overlap}
use east_validator.Consensus.Leader.{LeaderSchedule}
use east_validator.Consensus.Bft.{Node, Message, vote_msg, commit_cert, new_engine, new_height_step}
use east_validator.Consensus.Bft.Steps.{
  Reach, fresh, here, next, vote_comes, loop_aligns, propose_ends,
}
use east_validator.Consensus.Bft.Loop.{align_to_tip, end_propose}
use east_validator.Validator.Callbacks.{deliver, handle_all, deliver-handle_all, IsSendable}
use east_validator.Crypto.{verify_eip191, recover_address}
use east_validator.State.Roster.{is_jailed}
use east_validator.State.Blocks.{get_latest_height}
use east_validator.Consensus.Seal.{is_allowed}
use east_validator.Errors.{ok}
use east_validator.Prelude.Maps.{insert}
use east_validator.Prelude.Text.{to_lower, equal_fold}
use east_validator.Consensus.Bft.{adopt_round}
use east_validator.Consensus.Bft.Finalize.{try_finalize_prevotes}
use east_validator.Consensus.Bft.Handlers.{
  is_known_voter, admit_vote, adopt_from_vote, record_vote, detect_double_sign,
}
use east_validator.Tests.{alice, bob, ledger, library}

abbrev validators : List Text
validators = alice ∷ bob ∷ codes "0xcc" ∷ codes "0xdd" ∷ []

abbrev vote_by : Text → Text → Vote
vote_by voter hash = record {
  type = prevote;
  height = 0;
  round = 2;
  block_hash = hash;
  voter = voter;
  timestamp = 0;
  signature = codes "0x01";
}

abbrev entry : Text → Text → Text × Vote
entry voter hash = (voter, vote_by voter hash)

-- Two of the four vote for both hashes.
abbrev left : List (Text × Vote)
left =
    entry alice (codes "0x0a") ∷ entry bob (codes "0x0a") ∷ entry (codes "0xcc") (codes "0x0a") ∷ []

abbrev right : List (Text × Vote)
right =
    entry bob (codes "0x0b")
    ∷ entry (codes "0xcc") (codes "0x0b")
    ∷ entry (codes "0xdd") (codes "0x0b")
    ∷ []

validators-Distinct : Distinct validators
unfolding member text_eq
validators-Distinct = (refl, (refl, (refl, (refl, tt))))

left-Once : Within validators left × Once left
unfolding member text_eq lookup
left-Once = ((refl, (refl, (refl, tt))), (refl, (refl, (refl, tt))))

right-Once : Within validators right × Once right
unfolding member text_eq lookup
right-Once = ((refl, (refl, (refl, tt))), (refl, (refl, (refl, tt))))

left_quorum : quorum_size 4 ≤ votes_for (codes "0x0a") left
unfolding quorum_size votes_for text_eq
left_quorum = omega arith

right_quorum : quorum_size 4 ≤ votes_for (codes "0x0b") right
unfolding quorum_size votes_for text_eq
right_quorum = omega arith

quorums_overlap_example :
    max_faulty 4 < equivocators (codes "0x0a") (codes "0x0b") validators left right
quorums_overlap_example =
    quorums_overlap (codes "0x0a") (codes "0x0b") validators left right (omega arith)
      validators-Distinct left-Once right-Once left_quorum right_quorum

abbrev schedule : LeaderSchedule
schedule = record { validators = validators; local_addr = bob; wired = true }

abbrev node : Node
node = record {
  engine = new_engine bob [];
  leader = some schedule;
  store = ledger;
  pool = none;
  has_p2p = true;
  has_callback = false;
  out = [];
}

-- The engine takes the height above the tip, a later round's vote comes, the proposal does not.
abbrev next_vote : Vote
next_vote = record (vote_by alice (codes "0x0a")) { height = 1 }

abbrev aligned : Node
aligned = align_to_tip library (fresh bob [] node)

abbrev voted : Node
voted = handle_vote library 7000 next_vote aligned

abbrev prevoting : Node
prevoting = end_propose library 7100 voted

prevoting_is_reached : Reach library (fresh bob [] node) prevoting
prevoting_is_reached =
    next (next (next here (loop_aligns (fresh bob [] node))) (vote_comes 7000 next_vote aligned))
      (propose_ends 7100 voted)

alice_votes : verify_vote library (some next_vote) ≡ ok tt
unfolding verify_vote verify_eip191 recover_address equal_fold
alice_votes = refl

-- The vote of Alice is at hand in round 2 of height 1.
vote_is_recorded : voted.engine.prevotes ≡ (alice, next_vote) ∷ []
unfolding align_to_tip handle_vote is_jailed lookup is_known_voter is_allowed equal_fold admit_vote
    adopt_from_vote adopt_round record_vote detect_double_sign try_finalize_prevotes
    get_latest_height insert to_lower
vote_is_recorded = rw alice_votes refl

Reach-Counted_example : (prevoting.engine.step ≡ new_height_step) ⊎ Counted prevoting.engine
Reach-Counted_example = Reach-Counted library bob [] node prevoting prevoting_is_reached

-- What Bob's engine has let out, and its own callback.
abbrev let_out : List (ℕ × Message)
let_out = (7000, vote_msg next_vote) ∷ (7050, commit_cert 1 2 (codes "0x0a") 3) ∷ []

let_out-All-IsSendable : All (λ (e : ℕ × Message). IsSendable e.1) let_out
unfolding IsSendable is_vote_type
let_out-All-IsSendable = (refl, (tt, tt))

deliver-handle_all_example : deliver library let_out aligned ≡ handle_all library let_out aligned
deliver-handle_all_example = deliver-handle_all library let_out aligned let_out-All-IsSendable
