-- ===== src/Consensus/Bft/Steps/Early.antt =====
-- bft.go: the votes at hand when messages come while an engine waits for a round to start. They may
-- stand from before `loop` has taken the height above the tip; entering a round drops them.
use east_validator.Prelude.{
  ℕ, ◌≡◌, refl, sym, ap, ◌∙◌, ◌⊎◌, inl, inr, Bool, true, false, not, ◌&&◌, ltb, ◌==◌, if◌then◌else◌,
}
use east_validator.Prelude.Int.{lt32}
use east_validator.Prelude.Text.{equal_fold, is_empty, to_lower}
use east_validator.Prelude.Maps.{insert, text_key}
use east_validator.Crypto.{Crypto}
use east_validator.State.Roster.{is_jailed}
use east_validator.Consensus.Vote.{Vote, VoteType, prevote, precommit, other, Proposal}
use east_validator.Consensus.Bft.{
  Node, with_engine, new_height_step, propose_step, step_number, adopt_round, enter_prevote,
}
use east_validator.Consensus.Bft.Finalize.{is_step, try_finalize_prevotes, try_finalize_precommits}
use east_validator.Consensus.Bft.Handlers.{
  RoundCase, higher, same_round, older, compare_round, accept_proposal, expected_leader,
  consider_proposal, proposal_at_height, handle_proposal, adopt_from_vote, detect_double_sign,
  record_vote, admit_vote, handle_vote, validate_proposal,
}
use east_validator.Consensus.Bft.Steps.Invariant.{Good, same-Good}
use east_validator.Consensus.Bft.Steps.Messages.{
  adopt_round-Good, consider_proposal-Good, record_vote-Good, detect_double_sign-Good, same_height,
}
use east_validator.Errors.{is_ok}

-- The engine waits for a round to start, or what it may count is as it should be.
abbrev pub Known : Node → Type 0
Known n = (n.engine.step ≡ new_height_step) ⊎ Good n

pub if-Known : (b : Bool) (m n : Node) → Known m → Known n → Known (if b then m else n)
if-Known true m n hm hn = hm
if-Known false m n hm hn = hn

pub when-Known :
    (b : Bool) (m n : Node)
    → (b ≡ true → Known m)
    → (b ≡ false → Known n)
    → Known (if b then m else n)
when-Known true m n hm hn = hm refl
when-Known false m n hm hn = hn refl

-- A guard that does not pass.
pub skip-Known : (b : Bool) (m n : Node) → b ≡ false → Known n → Known (if b then m else n)
skip-Known b m n e h = rw e h

adopt_from_vote-Known :
    (v : Vote) (n : Node) → Known n → Known (with_engine (adopt_from_vote v n.engine) n)
unfolding adopt_from_vote
adopt_from_vote-Known v n h =
    elim (v.height == n.engine.height && lt32 n.engine.round v.round)
      as (λ b. Known (with_engine (if b then adopt_round v.round n.engine else n.engine) n)) [
        | true ↦ inr (adopt_round-Good v.round n)
        | false ↦ h
      ]

pub looked-Known : (n m : Node) → m.engine ≡ n.engine → Known n → Known m
looked-Known n m e (inl w) = inl (ap (λ x. x.step) e ∙ w)
looked-Known n m e (inr h) = inr (same-Good m n e h)

module _ (lib : Crypto) where
  pub try_finalize_prevotes-waits :
      (now : ℕ) (n : Node) → n.engine.step ≡ new_height_step → try_finalize_prevotes lib now n ≡ n
  unfolding try_finalize_prevotes
  try_finalize_prevotes-waits now n w = rw w refl

  pub try_finalize_precommits-waits :
      (now : ℕ) (n : Node) → n.engine.step ≡ new_height_step → try_finalize_precommits lib now n ≡ n
  unfolding try_finalize_precommits
  try_finalize_precommits-waits now n w = rw w refl

  record_vote-waits :
      (now : ℕ) (type : VoteType) (v : Vote) (n : Node)
      → n.engine.step ≡ new_height_step
      → Known (record_vote lib now type v n)
  unfolding record_vote
  record_vote-waits now prevote v n w =
      let added : Node =
        with_engine (record n.engine { prevotes = insert (to_lower v.voter) v n.engine.prevotes })
          n in
      if-Known _ n (try_finalize_prevotes lib now added) (inl w)
        (inl (ap (λ (m : Node). m.engine.step) (try_finalize_prevotes-waits now added w) ∙ w))
  record_vote-waits now precommit v n w =
      let added : Node =
        with_engine
          (record n.engine { precommits = insert (to_lower v.voter) v n.engine.precommits }) n in
      if-Known _ n (try_finalize_precommits lib now added) (inl w)
        (inl (ap (λ (m : Node). m.engine.step) (try_finalize_precommits-waits now added w) ∙ w))
  record_vote-waits now (other s) v n w = inl w

  record_vote-Known :
      (now : ℕ) (v : Vote) (n : Node)
      → v.height ≡ n.engine.height
      → Known n
      → Known (record_vote lib now v.type v (detect_double_sign now v n))
  unfolding detect_double_sign
  record_vote-Known now v n at (inl w) =
      record_vote-waits now v.type v (detect_double_sign now v n) w
  record_vote-Known now v n at (inr h) = inr (
      record_vote-Good lib now v.type v (detect_double_sign now v n) refl at
        (detect_double_sign-Good now v n h))

  admit_vote-Known : (now : ℕ) (v : Vote) (n : Node) → Known n → Known (admit_vote lib now v n)
  unfolding admit_vote
  admit_vote-Known now v n h =
      let adopted : Node = with_engine (adopt_from_vote v n.engine) n in
      let ready = adopt_from_vote-Known v n h in
      when-Known _ _ adopted
        (λ e.
          record_vote-Known now v adopted (same_height lib v.height adopted.engine.height _ e)
            ready)
        (λ e. ready)

  pub handle_vote-Known :
      (now : ℕ) (v : Vote) (n : Node) → Known n → Known (handle_vote lib now v n)
  unfolding handle_vote
  handle_vote-Known now v n h =
      let looked : Node = record n { store = (is_jailed now v.voter n.store).0 } in
      let same = looked-Known n looked refl h in
      if-Known _ _ n (if-Known _ looked _ same (admit_vote-Known now v looked same)) h

  consider_proposal-Known :
      (now : ℕ) (p : Proposal) (n : Node) → Known n → Known (consider_proposal lib now p n)
  unfolding consider_proposal accept_proposal
  consider_proposal-Known now p n (inr h) = inr (consider_proposal-Good lib now p n h)
  consider_proposal-Known now p n (inl w) =
      let n' : Node = record n { store = (expected_leader now p.height n.leader n.store).0 } in
      let accepted : Node = with_engine (accept_proposal p n'.engine) n' in
      let expected = (expected_leader now p.height n.leader n.store).1 in
      if-Known (ltb 1 (step_number n.engine.step)) n _ (inl w) (
        if-Known (not (is_empty expected) && not (equal_fold p.proposer expected)) n' _ (inl w) (
          if-Known (not (is_ok (validate_proposal lib p n'.store))) n' _ (inl w) (
            when-Known (is_step accepted.engine.step propose_step) (enter_prevote lib now accepted)
              accepted (λ e. absurd (let no = sym e ∙ ap (λ s. is_step s propose_step) w in cc))
              (λ e. inl w))))

  proposal_at_height-Known :
      (now : ℕ) (p : Proposal) (c : RoundCase) (n : Node)
      → Known n
      → Known (proposal_at_height lib now p c n)
  unfolding proposal_at_height
  proposal_at_height-Known now p higher n h =
      consider_proposal-Known now p (with_engine (adopt_round p.round n.engine) n)
        (inr (adopt_round-Good p.round n))
  proposal_at_height-Known now p same_round n h = consider_proposal-Known now p n h
  proposal_at_height-Known now p older n h = h

  pub handle_proposal-Known :
      (now : ℕ) (p : Proposal) (n : Node) → Known n → Known (handle_proposal lib now p n)
  unfolding handle_proposal
  handle_proposal-Known now p n h =
      if-Known _ _ n (proposal_at_height-Known now p (compare_round p.round n.engine.round) n h) h
