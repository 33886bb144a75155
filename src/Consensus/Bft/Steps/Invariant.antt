-- ===== src/Consensus/Bft/Steps/Invariant.antt =====
-- bft.go: the votes at hand across every step of the engine.
use mathlib.Core.Path.{subst}
use east_validator.Prelude.{
  sym, ℕ, suc, zero, ◌≡◌, refl, Bool, true, false, List, [], ◌∷◌, ◌++◌, Option, none, some,
  if◌then◌else◌,
}
use east_validator.Prelude.Text.{Text, is_empty}
use east_validator.Prelude.Maps.{text_key}
use east_validator.Crypto.{Crypto}
use east_validator.Tx.{Transaction}
use east_validator.State.{Store, BlockHeader}
use east_validator.State.Blocks.{save_block}
use east_validator.Consensus.Vote.{precommit, Proposal, quorum_size}
use east_validator.Consensus.Seal.{SealResult, seal_from_proposal}
use east_validator.Consensus.Bft.{
  Node, publish, with_engine, precommit_step, commit_step, next_round, advance_height,
  validator_count, commit_callback, commit_cert, block_announce,
}
use east_validator.Consensus.Bft.Finalize.{
  lock_on, to_precommit, decide_prevotes, try_finalize_prevotes, tally, find_quorum, commit,
  commit_proposal, commit_sealed, decide_precommits, try_finalize_precommits, resume_commit,
  resume_from, announce_commit, matching, votes_for, certified,
}
use east_validator.Consensus.Bft.Steps.Counted.{
  Counted, if-Counted, publish-Counted, broadcast_vote-Counted,
}
use east_validator.Errors.{Result, ok, err}

-- The same of a node, shut so that the proofs below follow the shape of the code.
pub Good : Node → Type 0
Good n = Counted n.engine

pub good : (n : Node) → Counted n.engine → Good n
unfolding Good
good n h = h

pub counted : (n : Node) → Good n → Counted n.engine
unfolding Good
counted n h = h

pub same-Good : (m n : Node) → m.engine ≡ n.engine → Good n → Good m
same-Good m n e h = good m (subst Counted (sym e) (counted n h))

pub if-Good : (b : Bool) (m n : Node) → Good m → Good n → Good (if b then m else n)
if-Good true m n hm hn = hm
if-Good false m n hm hn = hn

pub when-Good :
    (b : Bool) (m n : Node) → (b ≡ true → Good m) → (b ≡ false → Good n) → Good (if b then m else n)
when-Good true m n hm hn = hm refl
when-Good false m n hm hn = hn refl

module _ (lib : Crypto) where
  to_precommit-Good :
      (now : ℕ) (hash : Text) (n : Node) → Good n → Good (to_precommit lib now hash n)
  unfolding Good to_precommit lock_on
  to_precommit-Good now hash n h =
      broadcast_vote-Counted lib now precommit hash
        (with_engine (record (lock_on hash n.engine) { step = precommit_step }) n)
        (elim (is_empty hash)
          as (λ b.
            Counted
              (record (if b then n.engine else record n.engine {
                locked_hash = hash;
                locked_round = n.engine.round;
                valid_hash = hash;
                valid_round = n.engine.round;
              }) { step = precommit_step })) [ true ↦ h | false ↦ h ])

  decide_prevotes-Good :
      (now q : ℕ) (counts : List (Text × ℕ)) (found : Option Text) (n : Node)
      → Good n
      → Good (decide_prevotes lib now q counts found n)
  unfolding decide_prevotes
  decide_prevotes-Good now q counts (some hash) n h = to_precommit-Good now hash n h
  decide_prevotes-Good now q counts none n h = if-Good _ _ _ (to_precommit-Good now [] n h) h

  pub try_finalize_prevotes-Good :
      (now : ℕ) (n : Node) → Good n → Good (try_finalize_prevotes lib now n)
  unfolding try_finalize_prevotes
  try_finalize_prevotes-Good now n h =
      let q = quorum_size (validator_count n.leader) in
      let counts = tally n.engine.prevotes in
      if-Good _ _ _ (decide_prevotes-Good now q counts (find_quorum false q counts) n h) h

  announce_commit-Good :
      (round : ℕ) (b : BlockHeader) (votes : ℕ) (applied : List Transaction) (n : Node)
      → Good n
      → Good (announce_commit lib round b votes applied n)
  unfolding announce_commit Good
  announce_commit-Good round b votes applied n h =
      let sent =
        publish (commit_cert b.height round b.hash votes) (publish (block_announce b applied) n) in
      let ready =
        publish-Counted (commit_cert b.height round b.hash votes)
          (publish (block_announce b applied) n) (publish-Counted (block_announce b applied) n h) in
      if-Counted sent.has_callback
        (record sent { out = sent.out ++ commit_callback b applied ∷ [] }) sent ready ready

  commit_sealed-Good :
      (now votes : ℕ) (sealed : Store × Result SealResult) (n : Node)
      → Good n
      → Good (commit_sealed lib now votes sealed n)
  unfolding commit_sealed advance_height Good
  commit_sealed-Good now votes (s, err e) n h = (tt, tt, tt, tt)
  commit_sealed-Good now votes (s, ok r) n h =
      let block = certified lib n.engine.round votes r.header in
      announce_commit-Good n.engine.round block votes r.txs
        (record n {
          engine = record n.engine {
            last_commit_at = some now;
            committing = suc n.engine.committing;
          };
          store = save_block block s;
        })
        h

  commit_proposal-Good :
      (now votes : ℕ) (p : Option Proposal) (n : Node)
      → Good n
      → Good (commit_proposal lib now votes p n)
  unfolding commit_proposal advance_height Good
  commit_proposal-Good now votes none n h = (tt, tt, tt, tt)
  commit_proposal-Good now votes (some p) n h =
      commit_sealed-Good now votes
        (seal_from_proposal lib p n.engine.pending_txs n.engine.priv_key n.store) n h

  next_round-Good : (n : Node) → Good (with_engine (next_round n.engine) n)
  unfolding next_round Good
  next_round-Good n = (tt, tt, tt, tt)

  decide_precommits-Good :
      (now q : ℕ) (counts : List (Text × ℕ)) (found : Option Text) (n : Node)
      → Good n
      → Good (decide_precommits lib now q counts found n)
  unfolding decide_precommits commit
  decide_precommits-Good now q counts none n h = if-Good _ _ _ (next_round-Good n) h
  decide_precommits-Good now q counts (some hash) n h =
      commit_proposal-Good now (votes_for hash n.engine.precommits)
        (matching hash n.engine.proposal) (with_engine (record n.engine { step = commit_step }) n)
        (good _ (counted n h))

  pub try_finalize_precommits-Good :
      (now : ℕ) (n : Node) → Good n → Good (try_finalize_precommits lib now n)
  unfolding try_finalize_precommits
  try_finalize_precommits-Good now n h =
      let q = quorum_size (validator_count n.leader) in
      let counts = tally n.engine.precommits in
      if-Good _ _ _ (decide_precommits-Good now q counts (find_quorum true q counts) n h) h

  resume_from-Good : (k : ℕ) (n : Node) → Good n → Good (resume_from lib k n)
  unfolding resume_from advance_height Good
  resume_from-Good zero n h = h
  resume_from-Good (suc k) n h = (tt, tt, tt, tt)

  pub resume_commit-Good : (n : Node) → Good n → Good (resume_commit lib n)
  unfolding resume_commit
  resume_commit-Good n h = resume_from-Good n.engine.committing n h
