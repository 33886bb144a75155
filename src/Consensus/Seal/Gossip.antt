-- ===== src/Consensus/Seal/Gossip.antt =====
-- seal.go: what the acceptance of a gossiped block guarantees.
use east_validator.Prelude.{
  ℕ, ◌≡◌, refl, inl, inr, Bool, true, false, not, ◌||◌, List, map, arith, length, ◌==◌, ==_iff,
}
use east_validator.Prelude.Int.{inc64}
use east_validator.Prelude.Text.{Text, text_eq, text_eq_iff}
use east_validator.Crypto.{Crypto}
use east_validator.Tx.{Transaction}
use east_validator.State.{Store, BlockHeader}
use east_validator.State.Blocks.{get_latest_height, save_block}
use east_validator.State.Roster.{is_jailed}
use east_validator.Consensus.Leader.{is_some}
use east_validator.Consensus.Seal.{
  GossipBlockInput, expected_prev, is_allowed, check_link, check_body, check_seal, validate_all,
  recompute_block_hash, recompute_merkle_root, prefixed_hash, gossiped_header, apply_until,
  save_checked, save_applied, verify_linked, verify_and_save_gossiped_block_strict,
}
use east_validator.Errors.{
  Result, ok, err, Result-cases, ◌>>◌, guard, height_mismatch, prev_hash_mismatch,
  proposer_not_validator, proposer_jailed, block_hash_mismatch,
}

module _ (lib : Crypto) where
  -- What check_link establishes.
  check_link_ok :
      (b : GossipBlockInput) (s : Store)
      → check_link lib b s ≡ ok tt
      → (b.height ≡ inc64 (get_latest_height s))
        × (expected_prev s ≡ ok b.prev_hash)
        × ((length b.allowed_proposers == 0 || is_allowed b.proposer b.allowed_proposers) ≡ true)
  unfolding check_link
  check_link_ok b s h = elim (Result-cases (expected_prev s)) [
    | inl (prev, e) ↦
        let read : check_link lib b s ≡ (
            guard (b.height == inc64 (get_latest_height s)) height_mismatch
            >> (guard (text_eq b.prev_hash prev) prev_hash_mismatch
                >> guard
                    (length b.allowed_proposers == 0 || is_allowed b.proposer b.allowed_proposers)
                    proposer_not_validator)) =
          rw e refl in
        ground (
          arith,
          read,
          h,
          e,
          ==_iff b.height (inc64 (get_latest_height s)),
          text_eq_iff b.prev_hash prev,
        )
    | inr (x, e) ↦
        let read : check_link lib b s
            ≡ (guard (b.height == inc64 (get_latest_height s)) height_mismatch >> err x) =
          rw e refl in
        ground (arith, read, h)
  ]

  check_body_ok :
      (env : Text) (now : ℕ) (b : GossipBlockInput) (jailed : Bool) (txs : List Transaction)
      → check_body lib env now b jailed ≡ ok txs
      → (jailed ≡ false)
        × (validate_all lib env now b.txs ≡ ok txs)
        × (recompute_block_hash lib b.height b.prev_hash
              (recompute_merkle_root lib (map (prefixed_hash lib) txs))
              b.timestamp
              b.proposer
            ≡ b.hash)
        × (check_seal lib b ≡ ok tt)
  unfolding check_body
  check_body_ok env now b jailed txs h = elim (Result-cases (validate_all lib env now b.txs)) [
    | inl (found, e) ↦
        let read : check_body lib env now b jailed ≡ (
            guard (not jailed) proposer_jailed
            >> (guard
                  (text_eq
                    (recompute_block_hash lib b.height b.prev_hash
                      (recompute_merkle_root lib (map (prefixed_hash lib) found)) b.timestamp
                      b.proposer)
                    b.hash)
                  block_hash_mismatch
                >> (check_seal lib b >> ok found))) =
          rw e refl in
        ground (
          arith,
          read,
          h,
          e,
          text_eq_iff
              (recompute_block_hash lib b.height b.prev_hash
                (recompute_merkle_root lib (map (prefixed_hash lib) found)) b.timestamp b.proposer)
              b.hash,
        )
    | inr (x, e) ↦
        let read : check_body lib env now b jailed ≡ (guard (not jailed) proposer_jailed >> err x) =
          rw e refl in
        ground (arith, read, h)
  ]

  -- What holds of an accepted block: its link to the tip, its proposer, its transactions, its hash,
  -- its seal and the store after it.
  pub record Accepted (env : Text) (now : ℕ) (b : GossipBlockInput) (s after : Store) : Type 0 where
    pub next : b.height ≡ inc64 (get_latest_height s)
    pub linked : expected_prev s ≡ ok b.prev_hash
    pub member :
        (length b.allowed_proposers == 0 || is_allowed b.proposer b.allowed_proposers) ≡ true
    pub free : is_some (is_jailed now b.proposer s).1 ≡ false
    pub txs : List Transaction
    pub valid : validate_all lib env now b.txs ≡ ok txs
    pub hashed :
        recompute_block_hash lib b.height b.prev_hash
          (recompute_merkle_root lib (map (prefixed_hash lib) txs))
          b.timestamp
          b.proposer
        ≡ b.hash
    pub sealed : check_seal lib b ≡ ok tt
    pub applied : (apply_until txs (is_jailed now b.proposer s).0).1 ≡ ok tt
    pub saved :
        after
        ≡ save_block (gossiped_header lib b txs) (apply_until txs (is_jailed now b.proposer s).0).0

  save_applied_ok :
      (h : BlockHeader) (r : Store × Result (Unit {0}))
      → (save_applied lib h r).1 ≡ ok tt
      → (r.1 ≡ ok tt) × ((save_applied lib h r).0 ≡ save_block h r.0)
  save_applied_ok h (s, ok u) e = (refl, refl)
  save_applied_ok h (s, err x) e = ground (arith, e)

  save_checked_ok :
      (b : GossipBlockInput) (txs : List Transaction) (s : Store)
      → (save_checked lib b (ok txs) s).1 ≡ ok tt
      → ((apply_until txs s).1 ≡ ok tt)
        × ((save_checked lib b (ok txs) s).0
            ≡ save_block (gossiped_header lib b txs) (apply_until txs s).0)
  unfolding save_checked
  save_checked_ok b txs s h = save_applied_ok (gossiped_header lib b txs) (apply_until txs s) h

  save_checked-Accepted :
      (env : Text) (now : ℕ) (b : GossipBlockInput) (s : Store)
      → check_link lib b s ≡ ok tt
      → (body : Result (List Transaction))
      → check_body lib env now b (is_some (is_jailed now b.proposer s).1) ≡ body
      → (save_checked lib b body (is_jailed now b.proposer s).0).1 ≡ ok tt
      → Accepted env now b s (save_checked lib b body (is_jailed now b.proposer s).0).0
  unfolding save_checked
  save_checked-Accepted env now b s link (err x) e h = ground (arith, h)
  save_checked-Accepted env now b s link (ok found) e h =
      let (n, l, m) = check_link_ok b s link in
      let (f, v, hs, sl) =
        check_body_ok env now b (is_some (is_jailed now b.proposer s).1) found e in
      let (a, sv) = save_checked_ok b found (is_jailed now b.proposer s).0 h in
      record {
        next = n;
        linked = l;
        member = m;
        free = f;
        txs = found;
        valid = v;
        hashed = hs;
        sealed = sl;
        applied = a;
        saved = sv;
      }

  verify_linked-Accepted :
      (env : Text) (now : ℕ) (b : GossipBlockInput) (s : Store) (link : Result (Unit {0}))
      → check_link lib b s ≡ link
      → (verify_linked lib env now b link s).1 ≡ ok tt
      → Accepted env now b s (verify_linked lib env now b link s).0
  unfolding verify_linked
  verify_linked-Accepted env now b s (err x) e h = ground (arith, h)
  verify_linked-Accepted env now b s (ok tt) e h =
      save_checked-Accepted env now b s e
        (check_body lib env now b (is_some (is_jailed now b.proposer s).1)) refl h

  -- A gossiped block that is accepted extends the tip by one and names its hash, comes from an
  -- allowed proposer that is not jailed, has valid transactions and the hash that they give, has a
  -- good seal or needs none, and leaves the store that applying all its transactions and saving its
  -- header gives.
  pub verify_and_save_gossiped_block_strict-Accepted :
      (env : Text) (now : ℕ) (b : GossipBlockInput) (s : Store)
      → (verify_and_save_gossiped_block_strict lib env now b s).1 ≡ ok tt
      → Accepted env now b s (verify_and_save_gossiped_block_strict lib env now b s).0
  unfolding verify_and_save_gossiped_block_strict verify_linked
  verify_and_save_gossiped_block_strict-Accepted env now b s h =
      verify_linked-Accepted env now b s (check_link lib b s) refl h
