-- ===== src/Tests/Rounds.antt =====
-- Runs of the theorems on votes, rounds and the rotation at the test's data.
use east_validator.Prelude.{
  ℕ, All, ◌+◌, ◌-◌, ◌*◌, ◌≡◌, ◌<◌, ◌≤◌, ◌⊎◌, refl, List, [], ◌∷◌, none, some, true, false, arith,
  length,
}
use east_validator.Prelude.Int.{lt32}
use east_validator.Prelude.Text.{Text, codes, text_eq, to_lower, trim_space, equal_fold, is_empty}
use east_validator.Prelude.Maps.{lookup, insert, text_key}
use east_validator.Crypto.{verify_eip191, recover_address}
use east_validator.State.{normalize_addr}
use east_validator.State.Roster.{is_jailed}
use east_validator.State.Roster.Jail.{found_address}
use east_validator.Consensus.Vote.{vote_type_text, Vote, prevote, verify_vote, quorum_size}
use east_validator.Consensus.Vote.Quorum.{quorum_size_safe_live, max_faulty}
use east_validator.Consensus.Leader.{LeaderSchedule, leader_of, is_some}
use east_validator.Consensus.Leader.Rotation.{leader_of_turn}
use east_validator.Consensus.Seal.{is_allowed}
use east_validator.Consensus.Bft.{Node, new_engine, adopt_round, prevote_step, validator_count}
use east_validator.Consensus.Bft.Finalize.{
  tally, find_quorum, votes_for, try_finalize_prevotes, try_finalize_precommits,
}
use east_validator.Consensus.Bft.Handlers.{
  handle_vote, is_known_voter, detect_double_sign, vote_slot,
}
use east_validator.Consensus.Bft.Counting.{quorum_unique}
use east_validator.Consensus.Bft.Locking.{LockStep, lock_needs_quorum, commit_needs_quorum}
use east_validator.Consensus.Bft.Admission.{
  outsider_only_moves_round, outsider_moves_round, equivocator_jailed, detect_all,
}
use east_validator.Errors.{ok}
use east_validator.Tests.{alice, bob, ledger, library}

quorum_size_safe_live_example :
    (2 * 4 < 3 * quorum_size 4)
    × (quorum_size 4 ≤ 4)
    × (quorum_size 4 ≤ 4 - max_faulty 4)
    × (4 + max_faulty 4 < quorum_size 4 + quorum_size 4)
quorum_size_safe_live_example = quorum_size_safe_live 4 (omega arith)

abbrev validators : List Text
validators = bob ∷ codes "0xcc" ∷ codes "0xdd" ∷ []

leader_of_turn_example : leader_of alice (5 * length validators + 1) validators ≡ codes "0xcc"
leader_of_turn_example = leader_of_turn alice 5 1 validators (codes "0xcc") refl (omega arith)

abbrev vote_by : Text → Text → Vote
vote_by voter hash = record {
  type = prevote;
  height = 0;
  round = 2;
  block_hash = hash;
  voter = voter;
  timestamp = 0;
  signature = codes "0x01";
}

abbrev votes : List (Text × Vote)
votes =
    (bob, vote_by bob (codes "0x0b"))
    ∷ (codes "0xcc", vote_by (codes "0xcc") (codes "0x0b"))
    ∷ (codes "0xdd", vote_by (codes "0xdd") (codes "0x0b"))
    ∷ []

quorum_is_found : find_quorum true (quorum_size 3) (tally votes) ≡ some (codes "0x0b")
unfolding find_quorum tally quorum_size insert text_eq lookup
quorum_is_found = refl

quorum_is_there : quorum_size 3 ≤ votes_for (codes "0x0b") votes
unfolding quorum_size votes_for text_eq
quorum_is_there = omega arith

quorum_unique_example : codes "0x0b" ≡ codes "0x0b"
quorum_unique_example =
    quorum_unique true 3 (codes "0x0b") (codes "0x0b") votes (omega arith) (omega arith)
      quorum_is_found quorum_is_there

abbrev schedule : LeaderSchedule
schedule = record { validators = validators; local_addr = bob; wired = true }

-- Bob's node, with the prevotes of all three validators.
abbrev node : Node
node = record {
  engine = record (new_engine bob []) { round = 1; step = prevote_step; prevotes = votes };
  leader = some schedule;
  store = ledger;
  pool = none;
  has_p2p = true;
  has_callback = false;
  out = [];
}

lock_needs_quorum_example : LockStep library node (try_finalize_prevotes library 7000 node)
lock_needs_quorum_example = lock_needs_quorum library 7000 node

commit_needs_quorum_example :
    ((try_finalize_precommits library 7000 node).store ≡ node.store)
    ⊎ ((hash : Text) × (quorum_size (validator_count node.leader)
          ≤ votes_for hash node.engine.precommits)
        × (is_empty hash ≡ false))
commit_needs_quorum_example = commit_needs_quorum library 7000 node

-- Alice is no validator.
abbrev outside : Vote
outside = vote_by alice (codes "0x0c")

alice_is_outside : is_known_voter alice node.engine.local_addr node.leader ≡ false
unfolding is_known_voter equal_fold to_lower text_eq is_allowed
alice_is_outside = refl

outsider_only_moves_round_example :
    ((handle_vote library 7000 outside node).engine ≡ node.engine)
    ⊎ (((handle_vote library 7000 outside node).engine ≡ adopt_round 2 node.engine)
        × (lt32 node.engine.round 2 ≡ true))
outsider_only_moves_round_example =
    outsider_only_moves_round library 7000 outside node alice_is_outside

outside_is_signed : verify_vote library (some outside) ≡ ok tt
unfolding verify_vote verify_eip191 recover_address equal_fold
outside_is_signed = refl

alice_is_free : is_some (is_jailed 7000 alice ledger).1 ≡ false
unfolding is_jailed lookup
alice_is_free = refl

outsider_moves_round_example :
    (handle_vote library 7000 outside node).engine ≡ adopt_round 2 node.engine
outsider_moves_round_example =
    outsider_moves_round library 7000 outside node alice_is_outside outside_is_signed alice_is_free
      refl refl

abbrev double : Vote
double = vote_by bob (codes "0x0c")

abbrev other_votes : List (ℕ × Vote)
other_votes = (6500, vote_by (codes "0xcc") (codes "0x0b")) ∷ []

hashes_differ : text_eq (codes "0x0b") (codes "0x0c") ≡ false
unfolding text_eq
hashes_differ = refl

others_are_other :
    All
      (λ (e : ℕ × Vote). text_eq (vote_slot e.1) (vote_slot (vote_by bob (codes "0x0b"))) ≡ false)
      other_votes
unfolding text_eq vote_slot vote_type_text
others_are_other = (refl, tt)

bob_is_named : is_empty (normalize_addr bob) ≡ false
unfolding normalize_addr to_lower trim_space
bob_is_named = refl

equivocator_jailed_example :
    found_address
      (is_jailed 8000 bob
        (detect_double_sign 7000 double (
          detect_all other_votes
            (detect_double_sign 6000 (vote_by bob (codes "0x0b")) node))).store).1
    ≡ some (normalize_addr bob)
equivocator_jailed_example =
    equivocator_jailed 6000 7000 8000 (vote_by bob (codes "0x0b")) double other_votes node refl refl
      refl refl hashes_differ others_are_other bob_is_named (omega arith) (omega arith)
