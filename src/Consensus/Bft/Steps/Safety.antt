-- ===== src/Consensus/Bft/Steps/Safety.antt =====
-- bft.go: what an engine may count in every state that it reaches.
use east_validator.Prelude.{
  arith, true, false, some, ℕ, zero, suc, ◌≡◌, refl, ap, ◌∙◌, ◌⊎◌, inl, inr, List, [], ◌∷◌, ◌++◌,
  if◌then◌else◌, ◌||◌,
}
use east_validator.Prelude.Text.{Text}
use east_validator.Crypto.{Crypto}
use east_validator.Tx.{Transaction}
use east_validator.Consensus.Vote.{precommit, Proposal}
use east_validator.Consensus.Seal.{SealResult}
use east_validator.Consensus.Bft.{
  Message, Node, with_engine, enter_prevote, propose_step, prevote_step, precommit_step,
  new_height_step, next_round, broadcast_vote, publish, proposal_msg, advance_height,
}
use east_validator.Consensus.Bft.Finalize.{
  try_finalize_prevotes, try_finalize_precommits, is_step, resume_commit, resume_from,
}
use east_validator.Consensus.Bft.Loop.{
  end_propose, end_prevote, end_precommit, align_to_tip, start_round, leads, enter_propose,
  tell_sealed, adopt_own,
}
use east_validator.Consensus.Bft.Steps.{
  Step, Reach, fresh, proposal_comes, vote_comes, loop_aligns, round_starts, solo_marked, solo_told,
  solo_advances, proposal_stored, proposal_sent, propose_ends, prevotes_polled, prevote_ends,
  precommits_polled, precommit_ends, commit_resumes, store_changes, pool_changes, schedule_changes,
  here, next,
}
use east_validator.Consensus.Bft.Steps.Counted.{Counted, broadcast_vote-Counted}
use east_validator.Consensus.Bft.Steps.Early.{
  Known, if-Known, skip-Known, looked-Known, handle_vote-Known, handle_proposal-Known,
  try_finalize_prevotes-waits, try_finalize_precommits-waits,
}
use east_validator.Consensus.Bft.Steps.Invariant.{
  Good, good, counted, try_finalize_prevotes-Good, try_finalize_precommits-Good,
}
use east_validator.Consensus.Bft.Steps.Messages.{enter_prevote-Good}

publish-engine : (m : Message) (n : Node) → (publish m n).engine ≡ n.engine
publish-engine m n =
    elim n.has_p2p
      as (λ b. (if b then record n { out = n.out ++ m ∷ [] } else n).engine ≡ n.engine) [
        | true ↦ refl
        | false ↦ refl
      ]

tell_sealed-engine : (r : SealResult) (n : Node) → (tell_sealed r n).engine ≡ n.engine
unfolding tell_sealed
tell_sealed-engine r n = ground arith

enter_propose-Known : (now height : ℕ) (n : Node) → Known n → Known (enter_propose now height n)
unfolding enter_propose start_round
enter_propose-Known now height n h =
    let (looked, is_leader) = leads now height n.leader n.store in
    let ready : Node = record n { engine = start_round n.engine; store = looked } in
    if-Known (is_step n.engine.step new_height_step || is_step n.engine.step propose_step) ready n
      (inr (good ready (tt, tt, tt, tt))) h

advance_height-Good : (n : Node) → Good (with_engine (advance_height n.engine) n)
unfolding advance_height
advance_height-Good n = good (with_engine (advance_height n.engine) n) (tt, tt, tt, tt)

-- The engine's votes and step stay.
same_votes :
    (m n : Node)
    → m.engine.step ≡ n.engine.step
    → (Counted n.engine → Counted m.engine)
    → Known n
    → Known m
same_votes m n step votes (inl w) = inl (step ∙ w)
same_votes m n step votes (inr h) = inr (good m (votes (counted n h)))

stored-Known :
    (txs : List Transaction) (p : Proposal) (n : Node)
    → Known n
    → Known (with_engine (adopt_own p txs n.engine) n)
unfolding adopt_own
stored-Known txs p n h = same_votes (with_engine (adopt_own p txs n.engine) n) n refl (λ c. c) h

module _ (lib : Crypto) where
  resume_from-Known : (k : ℕ) (n : Node) → Known n → Known (resume_from lib k n)
  unfolding resume_from advance_height
  resume_from-Known zero n h = h
  resume_from-Known (suc k) n h = inr (good (resume_from lib (suc k) n) (tt, tt, tt, tt))

  end_precommit-Known : (n : Node) → Known n → Known (end_precommit lib n)
  unfolding end_precommit next_round
  end_precommit-Known n h =
      let over : Node = with_engine (next_round n.engine) n in
      if-Known (is_step n.engine.step precommit_step) over n (inl refl) h

  resume_commit-Known : (n : Node) → Known n → Known (resume_commit lib n)
  unfolding resume_commit
  resume_commit-Known n h = resume_from-Known n.engine.committing n h

  end_propose-Known : (now : ℕ) (n : Node) → Known n → Known (end_propose lib now n)
  unfolding end_propose
  end_propose-Known now n (inl w) =
      skip-Known (is_step n.engine.step propose_step) (enter_prevote lib now n) n
        (ap (λ s. is_step s propose_step) w) (inl w)
  end_propose-Known now n (inr h) =
      if-Known (is_step n.engine.step propose_step) (enter_prevote lib now n) n
        (inr (enter_prevote-Good lib now n h)) (inr h)

  end_prevote-Known : (now : ℕ) (n : Node) → Known n → Known (end_prevote lib now n)
  unfolding end_prevote
  end_prevote-Known now n (inl w) =
      skip-Known (is_step n.engine.step prevote_step) _ n (ap (λ s. is_step s prevote_step) w)
        (inl w)
  end_prevote-Known now n (inr h) =
      let over : Node = with_engine (record n.engine { step = precommit_step }) n in
      if-Known (is_step n.engine.step prevote_step) (broadcast_vote lib now precommit [] over) n
        (inr (
          good (broadcast_vote lib now precommit [] over)
            (broadcast_vote-Counted lib now precommit [] over (counted n h))))
        (inr h)

  prevotes_polled-Known : (now : ℕ) (n : Node) → Known n → Known (try_finalize_prevotes lib now n)
  prevotes_polled-Known now n (inl w) =
      inl (ap (λ (m : Node). m.engine.step) (try_finalize_prevotes-waits lib now n w) ∙ w)
  prevotes_polled-Known now n (inr h) = inr (try_finalize_prevotes-Good lib now n h)

  precommits_polled-Known :
      (now : ℕ) (n : Node) → Known n → Known (try_finalize_precommits lib now n)
  precommits_polled-Known now n (inl w) =
      inl (ap (λ (m : Node). m.engine.step) (try_finalize_precommits-waits lib now n w) ∙ w)
  precommits_polled-Known now n (inr h) = inr (try_finalize_precommits-Good lib now n h)

  align_to_tip-Known : (n : Node) → Known (align_to_tip lib n)
  unfolding align_to_tip
  align_to_tip-Known n = inl refl

  Step-Known : {m n : Node} → Step lib m n → Known m → Known n
  Step-Known (proposal_comes now p n) h = handle_proposal-Known lib now p n h
  Step-Known (vote_comes now v n) h = handle_vote-Known lib now v n h
  Step-Known (loop_aligns n) h = align_to_tip-Known n
  Step-Known (round_starts now height n) h = enter_propose-Known now height n h
  Step-Known (solo_marked now n) h =
      let marked : Node = with_engine (record n.engine { last_commit_at = some now }) n in
      same_votes marked n refl (λ c. c) h
  Step-Known (solo_told sealed n) h = looked-Known n _ (tell_sealed-engine sealed n) h
  Step-Known (solo_advances n) h = inr (advance_height-Good n)
  Step-Known (proposal_stored height round ts prev txs p n signed) h = stored-Known txs p n h
  Step-Known (proposal_sent p n) h = looked-Known n _ (publish-engine (proposal_msg p) n) h
  Step-Known (propose_ends now n) h = end_propose-Known now n h
  Step-Known (prevotes_polled now n) h = prevotes_polled-Known now n h
  Step-Known (prevote_ends now n) h = end_prevote-Known now n h
  Step-Known (precommits_polled now n) h = precommits_polled-Known now n h
  Step-Known (precommit_ends n) h = end_precommit-Known n h
  Step-Known (commit_resumes n) h = resume_commit-Known n h
  Step-Known (store_changes s n) h = looked-Known n (record n { store = s }) refl h
  Step-Known (pool_changes p n) h = looked-Known n (record n { pool = p }) refl h
  Step-Known (schedule_changes l n) h = looked-Known n (record n { leader = l }) refl h

  Reach-Known : {m n : Node} → Known m → Reach lib m n → Known n
  Reach-Known h here = h
  Reach-Known h (next r st) = Step-Known st (Reach-Known h r)

  Known-Counted : (n : Node) → Known n → (n.engine.step ≡ new_height_step) ⊎ Counted n.engine
  Known-Counted n (inl w) = inl w
  Known-Counted n (inr h) = inr (counted n h)

  -- In every state that a fresh engine reaches, by any order of messages, the alignment to the tip,
  -- timeouts and changes of the shared store, pool and schedule, the engine waits for a round to
  -- start, or the prevotes and precommits at hand are of the engine's own height and round and of
  -- their type, and no voter has two of them.
  pub Reach-Counted :
      (local key : Text) (m n : Node)
      → Reach lib (fresh local key m) n
      → (n.engine.step ≡ new_height_step) ⊎ Counted n.engine
  Reach-Counted local key m n r = Known-Counted n (Reach-Known (inl refl) r)
