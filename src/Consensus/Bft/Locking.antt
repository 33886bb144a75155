-- ===== src/Consensus/Bft/Locking.antt =====
-- bft.go: the lock, and what a decision needs.
use east_validator.Prelude.{
  ℕ, ◌≤◌, ◌≡◌, refl, ◌∙◌, ◌⊎◌, inl, inr, true, false, not, ◌&&◌, [], Option, none, some, arith,
  Bool-cases, leb, ◌==◌, if◌then◌else◌,
}
use east_validator.Prelude.Text.{Text, is_empty}
use east_validator.Prelude.Maps.{text_key}
use east_validator.Crypto.{Crypto}
use east_validator.Consensus.Vote.{
  Vote, VoteType, prevote, precommit, other, quorum_size, sign_vote,
}
use east_validator.Consensus.Bft.{
  Engine, Node, validator_count, broadcast_vote, record_own, precommit_step, prevote_step,
  with_engine, own_vote,
}
use east_validator.Consensus.Bft.Finalize.{
  tally, count_of, find_quorum, votes_for, lock_on, to_precommit, decide_prevotes,
  try_finalize_prevotes, decide_precommits, try_finalize_precommits, is_step,
}
use east_validator.Consensus.Bft.Counting.{find_quorum_sound}
use east_validator.Errors.{Result, ok, err}

-- What the lock of an engine is.
abbrev pub lock_of : Engine → Text × ℕ
lock_of e = (e.locked_hash, e.locked_round)

abbrev pub quorum_of : Node → ℕ
quorum_of n = quorum_size (validator_count n.leader)

module _ (lib : Crypto) where
  record_own_keeps :
      (type : VoteType) (r : Result Vote) (n : Node)
      → (lock_of (record_own lib type r n).engine ≡ lock_of n.engine)
        × ((record_own lib type r n).store ≡ n.store)
  unfolding record_own own_vote
  record_own_keeps type (err e) n = (refl, refl)
  record_own_keeps prevote (ok v) n = ground arith
  record_own_keeps precommit (ok v) n = ground arith
  record_own_keeps (other t) (ok v) n = ground arith

  broadcast_vote_keeps :
      (now : ℕ) (type : VoteType) (hash : Text) (n : Node)
      → (lock_of (broadcast_vote lib now type hash n).engine ≡ lock_of n.engine)
        × ((broadcast_vote lib now type hash n).store ≡ n.store)
  unfolding broadcast_vote
  broadcast_vote_keeps now type hash n = ground (
    arith,
    record_own_keeps type
        (sign_vote lib type n.engine.height n.engine.round hash n.engine.local_addr
          n.engine.priv_key now)
        n,
  )

  -- What may become of the lock while prevotes are counted.
  abbrev pub LockStep : Node → Node → Type 0
  LockStep n m =
      (lock_of m.engine ≡ lock_of n.engine)
      ⊎ ((quorum_of n ≤ votes_for m.engine.locked_hash n.engine.prevotes)
          × (m.engine.locked_round ≡ n.engine.round)
          × (is_empty m.engine.locked_hash ≡ false))

  locked_node : Text → Node → Node
  locked_node hash n = with_engine (record (lock_on hash n.engine) { step = precommit_step }) n

  lock_on-LockStep :
      (hash : Text) (n m : Node)
      → quorum_of n ≤ votes_for hash n.engine.prevotes
      → lock_of m.engine ≡ lock_of (locked_node hash n).engine
      → LockStep n m
  unfolding lock_on locked_node
  lock_on-LockStep hash n m many same = elim (Bool-cases (is_empty hash)) [
    | inl e ↦ inl (ground (arith, same, e))
    | inr e ↦ inr (ground (arith, same, e, many))
  ]

  nil_keeps : (n : Node) → lock_of (locked_node [] n).engine ≡ lock_of n.engine
  unfolding locked_node lock_on
  nil_keeps n = refl

  decide_prevotes-LockStep :
      (now : ℕ) (n : Node) (found : Option Text)
      → find_quorum false (quorum_of n) (tally n.engine.prevotes) ≡ found
      → LockStep n (decide_prevotes lib now (quorum_of n) (tally n.engine.prevotes) found n)
  unfolding decide_prevotes to_precommit locked_node
  decide_prevotes-LockStep now n (some hash) e =
      lock_on-LockStep hash n (to_precommit lib now hash n)
        (find_quorum_sound false (quorum_of n) hash n.engine.prevotes e).0
        (broadcast_vote_keeps now precommit hash (locked_node hash n)).0
  decide_prevotes-LockStep now n none e =
      elim (leb (quorum_of n) (count_of [] (tally n.engine.prevotes)))
        as (λ b. LockStep n (if b then to_precommit lib now [] n else n)) [
          | true ↦ inl ((broadcast_vote_keeps now precommit [] (locked_node [] n)).0 ∙ nil_keeps n)
          | false ↦ inl refl
        ]

  -- Counting prevotes leaves the lock as it was, or sets it, in the current round, to a hash that
  -- is not nil and that has a quorum of the prevotes at hand.
  pub lock_needs_quorum : (now : ℕ) (n : Node) → LockStep n (try_finalize_prevotes lib now n)
  unfolding try_finalize_prevotes
  lock_needs_quorum now n =
      elim (is_step n.engine.step prevote_step && not (quorum_of n == 0))
        as (λ b. LockStep n (
          if b
          then decide_prevotes lib now (quorum_of n) (tally n.engine.prevotes)
              (find_quorum false (quorum_of n) (tally n.engine.prevotes)) n
          else n)) [
            | true ↦
                decide_prevotes-LockStep now n
                  (find_quorum false (quorum_of n) (tally n.engine.prevotes)) refl
            | false ↦ inl refl
          ]

  decision_step :
      (now : ℕ) (n : Node) (found : Option Text)
      → find_quorum true (quorum_of n) (tally n.engine.precommits) ≡ found
      → ((decide_precommits lib now (quorum_of n) (tally n.engine.precommits) found n).store
          ≡ n.store)
        ⊎ ((hash : Text) × (quorum_of n ≤ votes_for hash n.engine.precommits)
            × (is_empty hash ≡ false))
  unfolding decide_precommits
  decision_step now n none e = inl (ground arith)
  decision_step now n (some hash) e =
      let (many, named) = find_quorum_sound true (quorum_of n) hash n.engine.precommits e in
      inr (hash, many, named)

  -- Counting precommits leaves the store as it was, unless some hash that is not nil has a quorum
  -- of the precommits at hand: no block is committed without one.
  pub commit_needs_quorum :
      (now : ℕ) (n : Node)
      → ((try_finalize_precommits lib now n).store ≡ n.store)
        ⊎ ((hash : Text) × (quorum_size (validator_count n.leader)
              ≤ votes_for hash n.engine.precommits)
            × (is_empty hash ≡ false))
  unfolding try_finalize_precommits
  commit_needs_quorum now n =
      elim (is_step n.engine.step precommit_step && not (quorum_of n == 0))
        as (λ b.
          ((if b
              then decide_precommits lib now (quorum_of n) (tally n.engine.precommits)
                  (find_quorum true (quorum_of n) (tally n.engine.precommits)) n
              else n).store
            ≡ n.store)
          ⊎ ((hash : Text) × (quorum_size (validator_count n.leader)
                ≤ votes_for hash n.engine.precommits)
              × (is_empty hash ≡ false))) [
                | true ↦
                    decision_step now n (find_quorum true (quorum_of n) (tally n.engine.precommits))
                      refl
                | false ↦ inl refl
              ]
