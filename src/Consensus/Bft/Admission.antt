-- ===== src/Consensus/Bft/Admission.antt =====
-- bft.go: whose votes count, and what becomes of a voter that votes twice.
use east_validator.Prelude.{
  All, List, [], ◌∷◌, ◌==◌, ℕ, ◌+◌, ◌≤◌, ◌<◌, ◌≡◌, refl, ◌⊎◌, true, false, ◌++◌, none, some, arith,
}
use east_validator.Prelude.Int.{two63, lt32}
use east_validator.Prelude.Text.{Text, codes, text_eq, is_empty}
use east_validator.Prelude.Maps.{lookup, lookup-insert, lookup-insert_self, text_key}
use east_validator.Prelude.Format.{show_nat, show_int32}
use east_validator.Crypto.{Crypto}
use east_validator.State.{normalize_addr}
use east_validator.State.Roster.{is_jailed}
use east_validator.State.Roster.Jail.{jailed_until, jail_validator_ok, found_address}
use east_validator.Consensus.Vote.{Vote, verify_vote}
use east_validator.Consensus.Leader.{is_some, default_jail_duration, jail_on_equivocation}
use east_validator.Consensus.Bft.{Engine, Node, VoteKey, adopt_round, with_engine}
use east_validator.Consensus.Bft.Handlers.{
  handle_vote, admit_vote, adopt_from_vote, is_known_voter, detect_double_sign, vote_slot,
  conflicts, punish, key_of,
}
use east_validator.Errors.{ok, or_else}

adopt_from_vote_local : (v : Vote) (e : Engine) → (adopt_from_vote v e).local_addr ≡ e.local_addr
unfolding adopt_from_vote adopt_round
adopt_from_vote_local v e = ground arith

module _ (lib : Crypto) where
  admit_outsider :
      (now : ℕ) (v : Vote) (n : Node)
      → is_known_voter v.voter n.engine.local_addr n.leader ≡ false
      → admit_vote lib now v n ≡ with_engine (adopt_from_vote v n.engine) n
  unfolding admit_vote
  admit_outsider now v n outsider = rw (adopt_from_vote_local v n.engine, outsider) (ground arith)

  -- The vote of an address outside the validator set leaves the engine as it was, or makes it
  -- adopt the vote's round, which drops the proposal and the votes at hand.
  pub outsider_only_moves_round :
      (now : ℕ) (v : Vote) (n : Node)
      → is_known_voter v.voter n.engine.local_addr n.leader ≡ false
      → ((handle_vote lib now v n).engine ≡ n.engine)
        ⊎ (((handle_vote lib now v n).engine ≡ adopt_round v.round n.engine)
            × (lt32 n.engine.round v.round ≡ true))
  unfolding handle_vote adopt_from_vote
  outsider_only_moves_round now v n outsider = ground (
    arith,
    admit_outsider now v (record n { store = (is_jailed now v.voter n.store).0 }) outsider,
  )

  -- A signed vote of a later round at this height, from an address outside the validator set that
  -- is not jailed, makes the engine adopt that round.
  pub outsider_moves_round :
      (now : ℕ) (v : Vote) (n : Node)
      → is_known_voter v.voter n.engine.local_addr n.leader ≡ false
      → verify_vote lib (some v) ≡ ok tt
      → is_some (is_jailed now v.voter n.store).1 ≡ false
      → v.height ≡ n.engine.height
      → lt32 n.engine.round v.round ≡ true
      → (handle_vote lib now v n).engine ≡ adopt_round v.round n.engine
  unfolding handle_vote adopt_from_vote
  outsider_moves_round now v n outsider signed free same later =
      rw (signed, free)
        (rw (admit_outsider now v (record n { store = (is_jailed now v.voter n.store).0 }) outsider)
          (rw (same, later) (ground arith)))

evidence_of : Vote → VoteKey → Text
evidence_of v k =
    codes "equivocation height="
    ++ (show_nat v.height
        ++ (codes " round="
            ++ (show_int32 v.round
                ++ (codes " hash_a=" ++ (k.hash ++ (codes " hash_b=" ++ v.block_hash))))))

conflict_punished :
    (now later : ℕ) (v : Vote) (k : VoteKey) (n : Node)
    → lookup (vote_slot v) n.engine.last_votes ≡ some k
    → conflicts v k ≡ true
    → is_empty (normalize_addr v.voter) ≡ false
    → now + default_jail_duration < two63
    → later ≤ now + default_jail_duration
    → found_address (is_jailed later v.voter (detect_double_sign now v n).store).1
      ≡ some (normalize_addr v.voter)
unfolding detect_double_sign punish jail_on_equivocation evidence_of
conflict_punished now later v k n seen clash named fits before =
    rw (seen, clash)
      (jailed_until now later v.voter v.voter (codes "equivocation") (evidence_of v k)
        default_jail_duration n.store
        (or_else (jail_on_equivocation now v.voter v.height v.round k.hash v.block_hash n.store)
          n.store)
        (jail_validator_ok now v.voter (codes "equivocation") (evidence_of v k)
          default_jail_duration n.store named)
        refl refl fits before)

-- The detection, on a run of votes with the times at which they come.
unfoldable pub detect_all : List (ℕ × Vote) → Node → Node
detect_all [] n = n
detect_all ((now, v) ∷ votes) n = detect_all votes (detect_double_sign now v n)

-- Votes of other voters or of the other type leave what is remembered of a slot.
detect_all-keeps :
    (slot : Text) (k : VoteKey) (votes : List (ℕ × Vote)) (n : Node)
    → All (λ (e : ℕ × Vote). text_eq (vote_slot e.1) slot ≡ false) votes
    → lookup slot n.engine.last_votes ≡ some k
    → lookup slot (detect_all votes n).engine.last_votes ≡ some k
unfolding detect_all detect_double_sign
detect_all-keeps slot k [] n others seen = seen
detect_all-keeps slot k ((now, v) ∷ votes) n others seen =
    detect_all-keeps slot k votes (detect_double_sign now v n) others.1
      (rw (lookup-insert (vote_slot v) slot, others.0) seen)

detect_double_sign-remembers :
    (now : ℕ) (v : Vote) (n : Node)
    → lookup (vote_slot v) (detect_double_sign now v n).engine.last_votes ≡ some (key_of v)
unfolding detect_double_sign
detect_double_sign-remembers now v n =
    lookup-insert_self (vote_slot v) (key_of v) n.engine.last_votes

-- When the double-sign detection of an engine in any state gets a vote, then any run of votes that
-- are of other spellings of a voter or of the other type, and then a vote of the first one's voter,
-- in the same spelling, and of its type, height and round, for a different hash, the voter is in
-- jail from then on for 24 hours, as long as the clock does not wrap.
pub equivocator_jailed :
    (first now later : ℕ) (v w : Vote) (between : List (ℕ × Vote)) (n : Node)
    → w.voter ≡ v.voter
    → w.type ≡ v.type
    → (v.height == w.height) ≡ true
    → (v.round == w.round) ≡ true
    → text_eq v.block_hash w.block_hash ≡ false
    → All (λ (e : ℕ × Vote). text_eq (vote_slot e.1) (vote_slot v) ≡ false) between
    → is_empty (normalize_addr w.voter) ≡ false
    → now + default_jail_duration < two63
    → later ≤ now + default_jail_duration
    → found_address
        (is_jailed later w.voter
          (detect_double_sign now w (detect_all between (detect_double_sign first v n))).store).1
      ≡ some (normalize_addr w.voter)
unfolding vote_slot conflicts
equivocator_jailed first now later v w between n voter type height round differs others named fits
      before =
    let middle = detect_all between (detect_double_sign first v n) in
    let seen : lookup (vote_slot w) middle.engine.last_votes ≡ some (key_of v) =
      rw (voter, type)
        (detect_all-keeps (vote_slot v) (key_of v) between (detect_double_sign first v n) others
          (detect_double_sign-remembers first v n)) in
    conflict_punished now later w (key_of v) middle seen (rw (height, round, differs) refl) named
      fits before

-- A vote whose voter is spelled in a way that the engine has not seen is never held against the
-- votes under another spelling: the store stays as it was.
pub spelling_escapes :
    (now : ℕ) (v w : Vote) (n : Node)
    → text_eq (vote_slot v) (vote_slot w) ≡ false
    → lookup (vote_slot v) n.engine.last_votes ≡ none
    → lookup (vote_slot w) n.engine.last_votes ≡ none
    → (detect_double_sign now w (detect_double_sign now v n)).store ≡ n.store
unfolding detect_double_sign punish
spelling_escapes now v w n apart new_v new_w =
    rw (new_v, lookup-insert (vote_slot v) (vote_slot w)) (rw (apart, new_w) refl)
