-- ===== src/Consensus/Producer/Ticks.antt =====
-- producer.go and seal.go: what one tick does to the chain and to what is announced.
use east_validator.Prelude.{
  ltb, leb, ◌&&◌, ℕ, ◌≡◌, ◌⊎◌, refl, sym, ap, ◌∙◌, inl, inr, not, List, [], ◌∷◌, ◌++◌, Option, none,
  some, map, Bool-cases, if◌then◌else◌,
}
use east_validator.Prelude.Int.{inc64, lt64, ◌+64◌}
use east_validator.Prelude.Text.{Text}
use east_validator.Prelude.Maps.{text_key, lookup, lookup-insert_self, nat_eq}
use east_validator.Crypto.{Crypto}
use east_validator.Errors.{
  Result, ok, err, guard, or_else, or_fail, Result-cases, mint_not_positive, bucket_not_found,
  over_cap, insufficient_balance, insufficient_staked, insufficient_pending, invalid_nonce,
  >>=-eq-ok,
}
use east_validator.Tx.{
  Transaction, TxType, transfer, stake, request_unstake, claim_unstake, claim_mining, unknown,
  parse_claim_mining_payload,
}
use east_validator.State.{Account, BlockHeader, Store}
use east_validator.State.Accounts.{get_or, get_account_txn, mint_from_bucket_txn, set_account_txn}
use east_validator.Consensus.Seal.{
  sealed_block, recompute_merkle_root, recompute_block_hash, prefixed_hash, sealer_signature,
  seal_next, SealResult, apply_each, expected_prev, seal_block_with_txs,
}
use east_validator.State.Apply.{claim_credit, apply_tx, apply_type}
use east_validator.State.Blocks.{get_latest_height, get_block, save_block, save_block_with_txs}
use east_validator.Consensus.Leader.{LeaderSchedule}
use east_validator.Consensus.Leader.Ledger.{is_local_leader-SameLedger}
use east_validator.Mempool.{Mempool}
use east_validator.Consensus.Producer.{
  take_pool, sealed_producer, proposer_identity, Producer, try_seal, produces, is_recent,
}

-- What comes out, if it has a known tip.
known_tip :
    (n : Option ℕ) (after r : Store)
    → after.latest_height ≡ n
    → ok after ≡ ok r
    → r.latest_height ≡ n
known_tip n after r same e = ap (λ x. (or_else x r).latest_height) (sym e) ∙ same

mint_from_bucket_txn-tip :
    (name : Text) (amount : ℕ) (s r : Store)
    → mint_from_bucket_txn name amount s ≡ ok r
    → r.latest_height ≡ s.latest_height
unfolding mint_from_bucket_txn
mint_from_bucket_txn-tip name amount s r h =
    let (positive, e, h₁) = >>=-eq-ok (guard (lt64 0 amount) mint_not_positive) _ h in
    let (b, f, h₂) = >>=-eq-ok (or_fail (lookup name s.buckets) bucket_not_found) _ h₁ in
    let (room, g, h₃) = >>=-eq-ok (guard (not (lt64 b.cap (b.minted +64 amount))) over_cap) _ h₂ in
    known_tip s.latest_height _ r refl h₃

apply_type-tip :
    (type : TxType) (t : Transaction) (acc : Account) (s r : Store)
    → apply_type type t acc s ≡ ok r
    → r.latest_height ≡ s.latest_height
unfolding apply_type set_account_txn
apply_type-tip transfer t acc s r h =
    let (u, e, h₁) = >>=-eq-ok (guard (not (lt64 acc.balance t.amount)) insufficient_balance) _ h in
    known_tip s.latest_height _ r refl h₁
apply_type-tip stake t acc s r h =
    let (u, e, h₁) = >>=-eq-ok (guard (not (lt64 acc.balance t.amount)) insufficient_balance) _ h in
    known_tip s.latest_height _ r refl h₁
apply_type-tip request_unstake t acc s r h =
    let (u, e, h₁) = >>=-eq-ok (guard (not (lt64 acc.staked t.amount)) insufficient_staked) _ h in
    known_tip s.latest_height _ r refl h₁
apply_type-tip claim_unstake t acc s r h =
    let (u, e, h₁) =
      >>=-eq-ok (guard (not (lt64 acc.pending_unstake t.amount)) insufficient_pending) _ h in
    known_tip s.latest_height _ r refl h₁
apply_type-tip claim_mining t acc s r h =
    let (p, e, h₁) = >>=-eq-ok (parse_claim_mining_payload t.payload) _ h in
    let (minted, f, h₂) = >>=-eq-ok (mint_from_bucket_txn p.bucket t.amount s) _ h₁ in
    let (credit, g, h₃) = >>=-eq-ok (claim_credit t.amount) _ h₂ in
    known_tip s.latest_height _ r (mint_from_bucket_txn-tip p.bucket t.amount s minted f) h₃
apply_type-tip (unknown name) t acc s r h = cc

apply_tx-tip :
    (t : Transaction) (s r : Store) → apply_tx t s ≡ ok r → r.latest_height ≡ s.latest_height
unfolding apply_tx
apply_tx-tip t s r h =
    let acc = get_account_txn t.from s in
    let (u, e, h₁) =
      >>=-eq-ok (guard (not (ltb 0 t.nonce && leb t.nonce acc.nonce)) invalid_nonce) _ h in
    apply_type-tip t.type t acc s r h₁

apply_each-tip :
    (ts : List Transaction) (s : Store) → (apply_each ts s).0.latest_height ≡ s.latest_height
unfolding apply_each
apply_each-tip [] s = refl
apply_each-tip (t ∷ ts) s = elim (Result-cases (apply_tx t s)) [
  | inl (after, e) ↦ rw (e, apply_each) (apply_each-tip ts after ∙ apply_tx-tip t s after e)
  | inr (refused, e) ↦ rw (e, apply_each) (apply_each-tip ts s)
]

-- What sealing gives: a failure that leaves the tip, or the next block, saved.
SealedNext : Store → Store → Result SealResult → Type 0
SealedNext s after (err e) = get_latest_height after ≡ get_latest_height s
SealedNext s after (ok r) =
    (r.header.height ≡ inc64 (get_latest_height s))
    × ((get_latest_height after ≡ r.header.height)
        × (get_block r.header.height after ≡ ok r.header))

-- A tick leaves the tip and the announcements as they are, or it seals one block: the next one,
-- which is the tip then and can be read, and is announced if there is a network.
pub Ticked : Producer → Producer → Type 0
Ticked before after =
    ((get_latest_height after.store ≡ get_latest_height before.store)
      × (after.announced ≡ before.announced))
    ⊎ ((r : SealResult) × ((r.header.height ≡ inc64 (get_latest_height before.store))
          × ((get_latest_height after.store ≡ r.header.height)
              × ((get_block r.header.height after.store ≡ ok r.header)
                  × (after.announced ≡ (
                      if before.has_p2p
                      then before.announced ++ (r.header, r.txs) ∷ []
                      else before.announced))))))

kept :
    (p : Producer) (looked : Store)
    → get_latest_height looked ≡ get_latest_height p.store
    → Ticked p (record p { store = looked })
unfolding Ticked
kept p looked tip = inl (tip, refl)

module _ (lib : Crypto) where
  get_block-save_block_with_txs :
      (h : BlockHeader) (txs : List (Option Transaction)) (s : Store)
      → get_block h.height (save_block_with_txs lib h txs s) ≡ ok h
  unfolding get_block save_block_with_txs save_block
  get_block-save_block_with_txs h txs s = rw (lookup-insert_self h.height h s.blocks) refl

  seal_next-SealedNext :
      (key proposer : Text) (ts : ℕ) (prev : Text) (txs : List Transaction) (s : Store)
      → SealedNext s
          (seal_next lib key proposer ts prev txs s).0
          (seal_next lib key proposer ts prev txs s).1
  unfolding seal_next SealedNext get_latest_height save_block_with_txs save_block
  seal_next-SealedNext key proposer ts prev txs s =
      let height = inc64 (get_latest_height s) in
      let (after, applied) = apply_each txs s in
      let merkle = recompute_merkle_root lib (map (prefixed_hash lib) applied) in
      let hash = recompute_block_hash lib height prev merkle ts proposer in
      elim (Result-cases (sealer_signature lib key height hash)) [
        | inl (sig, e) ↦
            rw (e, seal_next)
              (
                refl,
                (
                  refl,
                  get_block-save_block_with_txs
                      (sealed_block lib height hash prev ts proposer sig applied after)
                      (map some applied) after,
                ),
              )
        | inr (refused, e) ↦ rw (e, seal_next) (ap (λ o. get_or o 0) (apply_each-tip txs s))
      ]

  seal_block_with_txs-SealedNext :
      (key proposer : Text) (ts : ℕ) (txs : List Transaction) (s : Store)
      → SealedNext s
          (seal_block_with_txs lib key proposer ts txs s).0
          (seal_block_with_txs lib key proposer ts txs s).1
  unfolding seal_block_with_txs SealedNext
  seal_block_with_txs-SealedNext key proposer ts txs s = elim (Result-cases (expected_prev s)) [
    | inl (prev, e) ↦ rw (e, seal_block_with_txs) (seal_next-SealedNext key proposer ts prev txs s)
    | inr (refused, e) ↦ rw (e, seal_block_with_txs) refl
  ]

  sealed_producer-Ticked :
      (env : Text) (now : ℕ) (txs : List Transaction) (before : Producer) (looked : Store)
      (pool : Option Mempool) (after : Store) (r : Result SealResult)
      → get_latest_height looked ≡ get_latest_height before.store
      → SealedNext looked after r
      → Ticked before (
          sealed_producer lib env now txs
            (after, r)
            (record before { store = looked; pool = pool }))
  unfolding Ticked SealedNext sealed_producer
  sealed_producer-Ticked env now txs before looked pool after (err e) tip kept =
      inl (kept ∙ tip, refl)
  sealed_producer-Ticked env now txs before looked pool after (ok r) tip sealed =
      inr (r, (sealed.0 ∙ ap inc64 tip, (sealed.1.0, (sealed.1.1, refl))))

  produces-tip :
      (now height : ℕ) (l : Option LeaderSchedule) (s : Store)
      → get_latest_height (produces now height l s).0 ≡ get_latest_height s
  unfolding produces get_latest_height
  produces-tip now height none s = refl
  produces-tip now height (some l) s =
      ap (λ o. get_or o 0) (is_local_leader-SameLedger now height l s).latest_height

  -- A tick of the block producer leaves the tip and the announcements as they are, or it seals exactly
  -- one block: at the height after the tip, the tip from then on, to be read back at its height, and
  -- announced if there is a network, whatever the pool, the schedule and the signing key give.
  pub try_seal-Ticked :
      (env key address : Text) (now : ℕ) (p : Producer)
      → Ticked p (try_seal lib env key address now p)
  unfolding try_seal
  try_seal-Ticked env key address now p =
      let height = inc64 (get_latest_height p.store) in
      let (looked, may) = produces now height p.leader p.store in
      let tip = produces-tip now height p.leader p.store in
      let (pool, txs) = take_pool lib p.max_txs p.pool in
      elim (Bool-cases (is_recent now p)) [
        | inl e ↦ rw e (kept p p.store refl)
        | inr e ↦ elim (Bool-cases (produces now height p.leader p.store).1) [
          | inl f ↦
              rw (e, f)
                (sealed_producer-Ticked env now txs p looked pool
                  (seal_block_with_txs lib key (proposer_identity lib key address) now txs looked).0
                  (seal_block_with_txs lib key (proposer_identity lib key address) now txs looked).1
                  tip
                  (seal_block_with_txs-SealedNext key (proposer_identity lib key address) now txs
                    looked))
          | inr f ↦ rw (e, f) (kept p looked tip)
        ]
      ]
