-- ===== src/Consensus/Bft/Steps/Messages.antt =====
-- bft.go: the votes at hand across HandleProposal, HandleVote and the phases of a round.
use east_validator.Prelude.{ℕ, ◌≡◌, Bool, true, false, arith, not, ◌&&◌, ◌==◌, ==_iff, ◌||◌, ltb}
use east_validator.Prelude.Text.{is_empty, to_lower, equal_fold}
use east_validator.Prelude.Maps.{lookup, insert, text_key}
use east_validator.Crypto.{Crypto}
use east_validator.Consensus.Vote.{Vote, VoteType, prevote, precommit, other, Proposal}
use east_validator.Consensus.Leader.{is_some}
use east_validator.Consensus.Bft.{
  Node, with_engine, adopt_round, enter_prevote, propose_step, step_number,
}
use east_validator.Consensus.Bft.Finalize.{is_step, try_finalize_prevotes, try_finalize_precommits}
use east_validator.Consensus.Bft.Handlers.{
  accept_proposal, expected_leader, consider_proposal, detect_double_sign, record_vote,
  validate_proposal,
}
use east_validator.Consensus.Bft.Steps.Counted.{insert-OfRound, insert-Once, enter_prevote-Counted}
use east_validator.Consensus.Bft.Steps.Invariant.{
  Good, good, counted, if-Good, when-Good, try_finalize_prevotes-Good, try_finalize_precommits-Good,
}
use east_validator.Errors.{is_ok}

pub adopt_round-Good : (round : ℕ) (n : Node) → Good (with_engine (adopt_round round n.engine) n)
unfolding adopt_round
adopt_round-Good round n = good (with_engine (adopt_round round n.engine) n) (tt, tt, tt, tt)

pub detect_double_sign-Good :
    (now : ℕ) (v : Vote) (n : Node) → Good n → Good (detect_double_sign now v n)
unfolding detect_double_sign
detect_double_sign-Good now v n h = good (detect_double_sign now v n) (counted n h)

module _ (lib : Crypto) where
  pub enter_prevote-Good : (now : ℕ) (n : Node) → Good n → Good (enter_prevote lib now n)
  enter_prevote-Good now n h =
      good (enter_prevote lib now n) (enter_prevote-Counted lib now n (counted n h))

  same_slot : (seen : Bool) (a b : ℕ) → (seen || not (a == b)) ≡ false → a ≡ b
  same_slot seen a b e = ground (arith, e, ==_iff a b)

  pub same_height : (a b : ℕ) (known : Bool) → (a == b && known) ≡ true → a ≡ b
  same_height a b known e = ground (arith, e, ==_iff a b)

  pub record_vote-Good :
      (now : ℕ) (type : VoteType) (v : Vote) (n : Node)
      → v.type ≡ type
      → v.height ≡ n.engine.height
      → Good n
      → Good (record_vote lib now type v n)
  unfolding record_vote
  record_vote-Good now prevote v n ty at h =
      let (p, c, op, oc) = counted n h in
      let voter = to_lower v.voter in
      let added : Node =
        with_engine (record n.engine { prevotes = insert voter v n.engine.prevotes }) n in
      when-Good (is_some (lookup voter n.engine.prevotes) || not (v.round == n.engine.round)) n
        (try_finalize_prevotes lib now added) (λ e. h)
        (λ e. try_finalize_prevotes-Good lib now added (
          good added (
            insert-OfRound prevote n.engine.height n.engine.round voter v n.engine.prevotes
                (ty, at, same_slot _ v.round n.engine.round e) p,
            c,
            insert-Once voter v n.engine.prevotes op,
            oc,
          )))
  record_vote-Good now precommit v n ty at h =
      let (p, c, op, oc) = counted n h in
      let voter = to_lower v.voter in
      let added : Node =
        with_engine (record n.engine { precommits = insert voter v n.engine.precommits }) n in
      when-Good (is_some (lookup voter n.engine.precommits) || not (v.round == n.engine.round)) n
        (try_finalize_precommits lib now added) (λ e. h)
        (λ e. try_finalize_precommits-Good lib now added (
          good added (
            p,
            insert-OfRound precommit n.engine.height n.engine.round voter v n.engine.precommits
                (ty, at, same_slot _ v.round n.engine.round e) c,
            op,
            insert-Once voter v n.engine.precommits oc,
          )))
  record_vote-Good now (other s) v n ty at h = h

  pub consider_proposal-Good :
      (now : ℕ) (p : Proposal) (n : Node) → Good n → Good (consider_proposal lib now p n)
  unfolding consider_proposal accept_proposal
  consider_proposal-Good now p n h =
      let n' : Node = record n { store = (expected_leader now p.height n.leader n.store).0 } in
      let accepted : Node = with_engine (accept_proposal p n'.engine) n' in
      let same : Good n' = good n' (counted n h) in
      let taken : Good accepted = good accepted (counted n h) in
      let expected = (expected_leader now p.height n.leader n.store).1 in
      let entered = enter_prevote-Good now accepted taken in
      if-Good (ltb 1 (step_number n.engine.step)) n _ h (
        if-Good (not (is_empty expected) && not (equal_fold p.proposer expected)) n' _ same (
          if-Good (not (is_ok (validate_proposal lib p n'.store))) n' _ same (
            if-Good (is_step accepted.engine.step propose_step) (enter_prevote lib now accepted)
              accepted entered taken)))
