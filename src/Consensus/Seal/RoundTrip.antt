-- ===== src/Consensus/Seal/RoundTrip.antt =====
-- seal.go and producer.go: the check of gossiped blocks on a block that the producer seals.
use east_validator.Prelude.{
  some, All, false, ℕ, ◌≡◌, refl, sym, ap, ◌∙◌, inl, inr, true, false, ◌||◌, List, [], ◌∷◌, map,
  none, arith, length, ◌==◌, ==_iff,
}
use mathlib.Core.Path.{subst}
use east_validator.Prelude.Int.{inc64}
use east_validator.Prelude.Text.{is_empty, equal_fold, Text, text_eq_refl}
use east_validator.Crypto.{
  Crypto, sign_eip191, verify_eip191, address_from_private_key, build_chain_signing_message,
}
use east_validator.Crypto.Recovery.{Signing, recover_address-sign_eip191}
use east_validator.Tx.{Transaction, validate_basic}
use east_validator.State.{Store}
use east_validator.State.Apply.{apply_tx}
use east_validator.State.Blocks.{get_latest_height}
use east_validator.State.Roster.{is_jailed}
use east_validator.Consensus.Leader.{is_some}
use east_validator.Consensus.Seal.{
  SealResult, GossipBlockInput, expected_prev, is_allowed, check_link, check_body, check_seal,
  verify_sealer_signature, validate_all, recompute_block_hash, recompute_merkle_root, prefixed_hash,
  apply_until, apply_each, save_checked, save_applied, gossiped_header, verify_linked,
  verify_and_save_gossiped_block_strict, seal_block_with_txs, seal_next, sealer_signature,
  sealed_block,
}
use east_validator.Errors.{Result, ok, err, Result-cases, ◌>>=◌, or_else}

-- Applying again what was applied gives the same store, and nothing is refused.
apply_until-apply_each :
    (txs : List Transaction) (s : Store)
    → apply_until (apply_each txs s).1 s ≡ ((apply_each txs s).0, ok tt)
unfolding apply_until apply_each
apply_until-apply_each [] s = refl
apply_until-apply_each (t ∷ txs) s = elim (Result-cases (apply_tx t s)) [
  | inl (s', e) ↦
      let read : apply_each (t ∷ txs) s ≡ ((apply_each txs s').0, t ∷ (apply_each txs s').1) =
        rw (e, apply_each) refl in
      let again : apply_until (t ∷ (apply_each txs s').1) s ≡ apply_until (apply_each txs s').1 s' =
        rw (e, apply_until) refl in
      ap (λ r. apply_until r.1 s) read
      ∙ again
      ∙ apply_until-apply_each txs s'
      ∙ ap (λ r. (r.0, ok tt)) (sym read)
  | inr (x, e) ↦
      let read : apply_each (t ∷ txs) s ≡ apply_each txs s = rw (e, apply_each) refl in
      ap (λ r. apply_until r.1 s) read
      ∙ apply_until-apply_each txs s
      ∙ ap (λ r. (r.0, ok tt)) (sym read)
]

-- What is gossiped of a sealed block.
abbrev pub announced : SealResult → List Text → GossipBlockInput
announced r allowed = record {
  height = r.header.height;
  hash = r.header.hash;
  prev_hash = r.header.prev_hash;
  timestamp = r.header.timestamp;
  proposer = r.header.proposer;
  signature = r.header.signature;
  txs = map some r.txs;
  allowed_proposers = allowed;
}

module _ (lib : Crypto) where
  -- What sealing fixes of its result.
  abbrev Sealed : Store → Text → Text → List Transaction → SealResult → Type 0
  Sealed s key proposer txs r =
      (r.header.height ≡ inc64 (get_latest_height s))
      × (expected_prev s ≡ ok r.header.prev_hash)
      × (r.txs ≡ (apply_each txs s).1)
      × (r.header.proposer ≡ proposer)
      × (recompute_block_hash lib r.header.height r.header.prev_hash
            (recompute_merkle_root lib (map (prefixed_hash lib) r.txs)) r.header.timestamp
            r.header.proposer
          ≡ r.header.hash)
      × (sealer_signature lib key r.header.height r.header.hash ≡ ok r.header.signature)

  abbrev signed_result : ℕ → Text → Text → ℕ → List Transaction → Store → Text → SealResult
  signed_result height prev proposer ts txs s sig =
      let (after, applied) = apply_each txs s in
      let merkle = recompute_merkle_root lib (map (prefixed_hash lib) applied) in
      let hash = recompute_block_hash lib height prev merkle ts proposer in
      record {
        header = sealed_block lib height hash prev ts proposer sig applied after;
        sealer_sig = sig;
        txs = applied;
      }

  signed_Sealed :
      (key proposer prev : Text) (ts : ℕ) (txs : List Transaction) (s : Store) (r : SealResult)
      → expected_prev s ≡ ok prev
      → (sig : Result Text)
      → sealer_signature lib key (inc64 (get_latest_height s)) (
          recompute_block_hash lib
            (inc64 (get_latest_height s))
            prev
            (recompute_merkle_root lib (map (prefixed_hash lib) (apply_each txs s).1))
            ts
            proposer)
        ≡ sig
      → (do x ← sig; ok (signed_result (inc64 (get_latest_height s)) prev proposer ts txs s x))
        ≡ ok r
      → Sealed s key proposer txs r
  signed_Sealed key proposer prev ts txs s r linked (err x) by sealed = ground (arith, sealed)
  signed_Sealed key proposer prev ts txs s r linked (ok sig) by sealed =
      subst (Sealed s key proposer txs) (ap (λ x. or_else x r) sealed)
        (refl, linked, refl, refl, refl, by)

  seal_next_signed :
      (key proposer prev : Text) (ts : ℕ) (txs : List Transaction) (s : Store)
      → (seal_next lib key proposer ts prev txs s).1 ≡ (do
        x ← sealer_signature lib key (inc64 (get_latest_height s)) (
            recompute_block_hash lib
              (inc64 (get_latest_height s))
              prev
              (recompute_merkle_root lib (map (prefixed_hash lib) (apply_each txs s).1))
              ts
              proposer)
        ok (signed_result (inc64 (get_latest_height s)) prev proposer ts txs s x))
  unfolding seal_next
  seal_next_signed key proposer prev ts txs s =
      elim (Result-cases (
        sealer_signature lib key (inc64 (get_latest_height s)) (
          recompute_block_hash lib (inc64 (get_latest_height s)) prev
            (recompute_merkle_root lib (map (prefixed_hash lib) (apply_each txs s).1)) ts
            proposer))) [
              | inl (x, e) ↦ rw (e, seal_next) refl
              | inr (x, e) ↦ rw (e, seal_next) refl
            ]

  seal_Sealed :
      (key proposer : Text) (ts : ℕ) (txs : List Transaction) (s : Store) (r : SealResult)
      → (seal_block_with_txs lib key proposer ts txs s).1 ≡ ok r
      → Sealed s key proposer txs r
  unfolding seal_block_with_txs
  seal_Sealed key proposer ts txs s r sealed = elim (Result-cases (expected_prev s)) [
    | inl (prev, e) ↦
        let read : (seal_block_with_txs lib key proposer ts txs s).1
            ≡ (seal_next lib key proposer ts prev txs s).1 =
          rw (e, seal_block_with_txs) refl in
        signed_Sealed key proposer prev ts txs s r e
          (sealer_signature lib key (inc64 (get_latest_height s)) (
            recompute_block_hash lib (inc64 (get_latest_height s)) prev
              (recompute_merkle_root lib (map (prefixed_hash lib) (apply_each txs s).1)) ts
              proposer))
          refl (sym (read ∙ seal_next_signed key proposer prev ts txs s) ∙ sealed)
    | inr (x, e) ↦
        let read : (seal_block_with_txs lib key proposer ts txs s).1 ≡ err x =
          rw (e, seal_block_with_txs) refl in
        ground (arith, read, sealed)
  ]

  link_passes :
      (b : GossipBlockInput) (s : Store)
      → b.height ≡ inc64 (get_latest_height s)
      → expected_prev s ≡ ok b.prev_hash
      → (length b.allowed_proposers == 0 || is_allowed b.proposer b.allowed_proposers) ≡ true
      → check_link lib b s ≡ ok tt
  unfolding check_link
  link_passes b s next linked member =
      rw
        (
          linked,
          (==_iff b.height (inc64 (get_latest_height s))).1 next,
          text_eq_refl b.prev_hash,
          member,
        )
        refl

  body_passes :
      (env : Text) (now : ℕ) (b : GossipBlockInput) (txs : List Transaction)
      → validate_all lib env now b.txs ≡ ok txs
      → recompute_block_hash lib b.height b.prev_hash
          (recompute_merkle_root lib (map (prefixed_hash lib) txs))
          b.timestamp
          b.proposer
        ≡ b.hash
      → check_seal lib b ≡ ok tt
      → check_body lib env now b false ≡ ok txs
  unfolding check_body
  body_passes env now b txs valid hashed seal = rw (valid, hashed, text_eq_refl b.hash, seal) refl

  linked_passes :
      (env : Text) (now : ℕ) (b : GossipBlockInput) (txs : List Transaction) (s after : Store)
      → is_jailed now b.proposer s ≡ (s, none)
      → check_body lib env now b false ≡ ok txs
      → apply_until txs s ≡ (after, ok tt)
      → (verify_linked lib env now b (ok tt) s).1 ≡ ok tt
  unfolding verify_linked save_checked
  linked_passes env now b txs s after free body applied =
      ap (λ p. (save_checked lib b (check_body lib env now b (is_some p.1)) p.0).1) free
      ∙ ap (λ c. (save_checked lib b c s).1) body
      ∙ ap (λ r. (save_applied lib (gossiped_header lib b txs) r).1) applied

  -- The seal of a block that a key has sealed under its own address passes the check.
  check_seal-sealer_signature :
      (key signer : Text) (b : GossipBlockInput)
      → Signing lib
      → is_empty key ≡ false
      → address_from_private_key lib key ≡ ok signer
      → equal_fold signer b.proposer ≡ true
      → is_empty b.proposer ≡ false
      → sealer_signature lib key b.height b.hash ≡ ok b.signature
      → check_seal lib b ≡ ok tt
  unfolding check_seal verify_sealer_signature verify_eip191
  check_seal-sealer_signature key signer b signing keyed own same named sealed =
      let signed : sign_eip191 lib (build_chain_signing_message b.height b.hash) key
          ≡ ok b.signature =
        sym (rw keyed) ∙ sealed in
      let (a, of_key, found, written) =
        recover_address-sign_eip191 lib signing (build_chain_signing_message b.height b.hash) key
          b.signature signed in
      let is_signer : a ≡ signer = ap (λ r. or_else r a) (sym of_key ∙ own) in
      rw (written, named, found, is_signer, same) refl

  -- Transactions that pass their check as they are pass it in a block that has some of them.
  validate_all-apply_each :
      (env : Text) (now : ℕ) (txs : List Transaction) (s : Store)
      → All (λ t. validate_basic lib env now t ≡ ok t) txs
      → validate_all lib env now (map some (apply_each txs s).1) ≡ ok (apply_each txs s).1
  unfolding validate_all apply_each
  validate_all-apply_each env now [] s valid = refl
  validate_all-apply_each env now (t ∷ txs) s valid = elim (Result-cases (apply_tx t s)) [
    | inl (s', e) ↦ rw (e, valid.0, validate_all-apply_each env now txs s' valid.1, apply_each) refl
    | inr (x, e) ↦ rw (e, apply_each) (validate_all-apply_each env now txs s valid.1)
  ]

  -- A block that this node seals under the address of its signing key, from transactions that pass
  -- ValidateBasic as they stand, is accepted by another node with the same store, whose set of
  -- proposers allows that address and which has no jail record of it, if the signature functions of
  -- go-ethereum do what `Signing` says.
  pub sealed_is_accepted :
      (key signer proposer env : Text) (ts now : ℕ) (txs : List Transaction) (s : Store)
      (r : SealResult) (allowed : List Text)
      → Signing lib
      → is_empty key ≡ false
      → address_from_private_key lib key ≡ ok signer
      → equal_fold signer proposer ≡ true
      → is_empty proposer ≡ false
      → All (λ t. validate_basic lib env now t ≡ ok t) txs
      → (length allowed == 0 || is_allowed proposer allowed) ≡ true
      → is_jailed now proposer s ≡ (s, none)
      → (seal_block_with_txs lib key proposer ts txs s).1 ≡ ok r
      → (verify_and_save_gossiped_block_strict lib env now (announced r allowed) s).1 ≡ ok tt
  unfolding verify_and_save_gossiped_block_strict
  sealed_is_accepted key signer proposer env ts now txs s r allowed signing keyed own is_own named
        valid member free sealed =
      let (next, linked, same, by, hashed, signed) = seal_Sealed key proposer ts txs s r sealed in
      let b = announced r allowed in
      let link : check_link lib b s ≡ ok tt = link_passes b s next linked (rw by member) in
      let seal : check_seal lib b ≡ ok tt =
        check_seal-sealer_signature key signer b signing keyed own (rw by is_own) (rw by named)
          signed in
      let checked : validate_all lib env now b.txs ≡ ok r.txs =
        ap (λ l. validate_all lib env now (map some l)) same
        ∙ validate_all-apply_each env now txs s valid
        ∙ ap ok (sym same) in
      let body : check_body lib env now b false ≡ ok r.txs =
        body_passes env now b r.txs checked hashed seal in
      ap (λ l. (verify_linked lib env now b l s).1) link
      ∙ linked_passes env now b r.txs s (apply_each txs s).0 (ap (λ a. is_jailed now a s) by ∙ free)
          body (ap (λ ts'. apply_until ts' s) same ∙ apply_until-apply_each txs s)
