-- ===== src/Consensus/Bft/Steps/Propose.antt =====
-- bft.go: runPropose with nothing in between as a path of the engine's steps.
use east_validator.Prelude.{
  ℕ, ◌≡◌, refl, sym, inl, inr, Bool, true, false, not, ◌&&◌, ◌||◌, List, Option, some, Bool-cases,
  Option-cases, if◌then◌else◌,
}
use mathlib.Core.Path.{subst}
use east_validator.Prelude.Text.{Text, is_empty}
use east_validator.Crypto.{Crypto}
use east_validator.Tx.{Transaction}
use east_validator.Mempool.{Mempool}
use east_validator.State.{Store}
use east_validator.Consensus.Vote.{Proposal, sign_proposal_bft}
use east_validator.Consensus.Seal.{SealResult, seal_block_with_txs}
use east_validator.Consensus.Bft.{Node, with_engine, propose_step, new_height_step}
use east_validator.Consensus.Bft.Finalize.{is_step}
use east_validator.Consensus.Bft.Loop.{
  run_propose, start_round, enter_propose, leads, seals_alone, solo_seal, solo_sealed,
  solo_proposer, take_txs, return_txs, build_and_broadcast_proposal, build_on, broadcast_proposal,
  own_proposal, adopt_own, tell_sealed,
}
use east_validator.Consensus.Bft.Steps.{
  Reach, here, next, round_starts, solo_marked, solo_told, solo_advances, proposal_stored,
  proposal_sent, store_changes, pool_changes,
}
use east_validator.Errors.{Result, ok, err}

take_txs-pool :
    (limit : ℕ) (n : Node) → (take_txs limit n).0 ≡ record n { pool = (take_txs limit n).0.pool }
unfolding take_txs
take_txs-pool limit n = elim (Option-cases n.pool) [
  | inl e ↦ rw (e, take_txs) refl
  | inr (p, e) ↦ rw (e, take_txs) refl
]

module _ (lib : Crypto) where
  if-Reach :
      {m : Node} (b : Bool) (n k : Node)
      → Reach lib m n
      → Reach lib m k
      → Reach lib m (if b then n else k)
  if-Reach true n k rn rk = rn
  if-Reach false n k rn rk = rk

  return_txs-Reach :
      {m : Node} (env : Text) (now : ℕ) (txs : List Transaction) (n : Node)
      → Reach lib m n
      → Reach lib m (return_txs lib env now txs n)
  unfolding return_txs
  return_txs-Reach {m} env now txs n r = elim (Option-cases n.pool) [
    | inl e ↦ rw (e, return_txs) r
    | inr (p, e) ↦ rw (e, return_txs) (next r (pool_changes _ n))
  ]

  broadcast_proposal-Reach :
      {m : Node} (env : Text) (height round now : ℕ) (prev : Text) (txs : List Transaction)
      (signed : Result Proposal) (pool : Option Mempool) (n : Node)
      → sign_proposal_bft lib
          (own_proposal lib height round now prev n.engine.local_addr txs)
          n.engine.priv_key
        ≡ signed
      → Reach lib m n
      → Reach lib m (broadcast_proposal lib env now txs signed (record n { pool = pool }))
  unfolding broadcast_proposal
  broadcast_proposal-Reach env height round now prev txs (err x) pool n e r =
      return_txs-Reach env now txs (record n { pool = pool }) (next r (pool_changes pool n))
  broadcast_proposal-Reach env height round now prev txs (ok p) pool n e r =
      let taken : Node = record n { pool = pool } in
      next
        (next (next r (pool_changes pool n)) (proposal_stored height round now prev txs p taken e))
        (proposal_sent p (with_engine (adopt_own p txs taken.engine) taken))

  build_on-Reach :
      {m : Node} (env : Text) (now height round : ℕ) (prev : Result Text) (n : Node)
      → Reach lib m n
      → Reach lib m (build_on lib env now height round prev n)
  unfolding build_on
  build_on-Reach env now height round (err x) n r = r
  build_on-Reach {m} env now height round (ok prev) n r =
      let (rest, txs) = take_txs n.engine.max_txs n in
      let signed =
        sign_proposal_bft lib (own_proposal lib height round now prev n.engine.local_addr txs)
          n.engine.priv_key in
      subst (λ k. Reach lib m (broadcast_proposal lib env now txs signed k))
        (sym (take_txs-pool n.engine.max_txs n))
        (broadcast_proposal-Reach env height round now prev txs signed rest.pool n refl r)

  solo_sealed-Reach :
      {m : Node} (env : Text) (now : ℕ) (txs : List Transaction) (r : Store × Result SealResult)
      (n : Node)
      → Reach lib m n
      → Reach lib m (solo_sealed lib env now txs r n)
  unfolding solo_sealed
  solo_sealed-Reach env now txs (s, err x) n r =
      return_txs-Reach env now txs (record n { store = s }) (next r (store_changes s n))
  solo_sealed-Reach env now txs (s, ok sealed) n r =
      let saved : Node = record n { store = s } in
      let marked : Node = with_engine (record saved.engine { last_commit_at = some now }) saved in
      next
        (next (next (next r (store_changes s n)) (solo_marked now saved)) (solo_told sealed marked))
        (solo_advances (tell_sealed sealed marked))

  solo_seal-Reach :
      {m : Node} (env : Text) (now : ℕ) (n : Node)
      → Reach lib m n
      → Reach lib m (solo_seal lib env now n)
  unfolding solo_seal
  solo_seal-Reach {m} env now n r =
      let (rest, txs) = take_txs n.engine.max_txs n in
      solo_sealed-Reach env now txs
        (seal_block_with_txs lib n.engine.priv_key (solo_proposer n.engine.local_addr) now txs
          rest.store)
        rest
        (subst (Reach lib m) (sym (take_txs-pool n.engine.max_txs n))
          (next r (pool_changes rest.pool n)))

  -- Whatever the height, the round and the node, what runPropose does with nothing in between is a
  -- path of the engine's steps: the relation of the steps has every run of it.
  pub run_propose-Reach :
      (env : Text) (now height round : ℕ) (n : Node)
      → Reach lib n (run_propose lib env now height round n)
  unfolding run_propose enter_propose build_and_broadcast_proposal
  run_propose-Reach env now height round n =
      let (looked, is_leader) = leads now height n.leader n.store in
      let ready : Node = record n { engine = start_round n.engine; store = looked } in
      elim (Bool-cases
        (is_step n.engine.step new_height_step || is_step n.engine.step propose_step)) [
          | inl e ↦
              let entered : enter_propose now height n ≡ ready = rw e refl in
              let r = subst (Reach lib n) entered (next here (round_starts now height n)) in
              rw e (
                if-Reach (seals_alone n.leader) _ _ (solo_seal-Reach env now ready r) (
                  if-Reach (is_leader && not (is_empty n.engine.priv_key)) _ ready
                    (build_on-Reach env now height round _ ready r) r))
          | inr e ↦ rw e here
        ]
