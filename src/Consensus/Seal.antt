-- ===== src/Consensus/Seal.antt =====
-- internal/consensus/seal.go and the sealing functions of producer.go and bft.go: block hashes, the
-- check of a gossiped block, and the application of a block's transactions.
pub mod Gossip
pub mod RoundTrip
use east_validator.Prelude.{
  ℕ, zero, suc, ◌≡◌, refl, Bool, true, false, not, ◌||◌, List, [], ◌∷◌, ◌++◌, map, Option, none,
  some, arith, length, ltb, ◌==◌, if◌then◌else◌,
}
use east_validator.Prelude.Int.{inc64}
use east_validator.Prelude.Text.{Text, codes, text_eq, equal_fold, is_empty}
use east_validator.Prelude.Format.{show_nat, show_int64, hex_encode}
use east_validator.Crypto.{Crypto, build_chain_signing_message, verify_eip191, sign_eip191}
use east_validator.Tx.{Transaction, tx_hash, validate_basic}
use east_validator.State.{Store, BlockHeader}
use east_validator.State.Apply.{apply_tx}
use east_validator.State.Blocks.{get_latest_height, get_block, save_block, save_block_with_txs}
use east_validator.State.Roster.{is_jailed}
use east_validator.Merkle.{compute_state_root}
use east_validator.Consensus.Vote.{Proposal}
use east_validator.Consensus.Leader.{is_some}
use east_validator.Errors.{
  Error, Result, ok, err, ◌>>=◌, ◌>>◌, guard, signature_required, missing_proposer,
  signature_mismatch, height_mismatch, prev_hash_mismatch, proposer_not_validator, proposer_jailed,
  nil_transaction, block_hash_mismatch, missing_seal,
}

pub record SealResult : Type 0 where
  pub header : BlockHeader
  pub sealer_sig : Text
  pub txs : List Transaction

pub record GossipBlockInput : Type 0 where
  pub height : ℕ
  pub hash : Text
  pub prev_hash : Text
  pub timestamp : ℕ
  pub proposer : Text
  pub signature : Text
  -- `none` is a nil pointer.
  pub txs : List (Option Transaction)
  pub allowed_proposers : List Text

abbrev pub genesis_name : Text
genesis_name = codes "GENESIS"

-- The previous hash that the next block must name.
unfoldable pub expected_prev : Store → Result Text
expected_prev s =
    let latest = get_latest_height s in
    if latest == 0 then ok genesis_name else do prev ← get_block latest s; ok prev.hash

unfoldable pub is_allowed : Text → List Text → Bool
is_allowed proposer [] = false
is_allowed proposer (a ∷ allowed) = equal_fold a proposer || is_allowed proposer allowed

concat_all : List Text → Text
concat_all [] = []
concat_all (h ∷ hs) = h ++ concat_all hs

-- The transactions that ApplyTx accepts one after the other, and the store after them.
unfoldable pub apply_each : List Transaction → Store → Store × List Transaction
apply_each [] s = (s, [])
apply_each (t ∷ ts) s =
    let refused = apply_each ts s in
    elim (apply_tx t s) [
      | ok s' ↦ let (after, applied) = apply_each ts s' in (after, t ∷ applied)
      | err e ↦ refused
    ]

-- As the loop that stops at the first refusal: the store has what came before it.
unfoldable pub apply_until : List Transaction → Store → Store × Result (Unit {0})
apply_until [] s = (s, ok tt)
apply_until (t ∷ ts) s = elim (apply_tx t s) [ ok s' ↦ apply_until ts s' | err e ↦ (s, err e) ]

module _ (lib : Crypto) where
  abbrev pub prefixed_hash : Transaction → Text
  prefixed_hash t = codes "0x" ++ tx_hash lib t

  unfoldable pub recompute_merkle_root : List Text → Text
  unfolding concat_all
  recompute_merkle_root [] = codes "0x" ++ hex_encode (lib.sha256 (codes "EMPTY"))
  recompute_merkle_root (h ∷ hs) = codes "0x" ++ hex_encode (lib.sha256 (concat_all (h ∷ hs)))

  unfoldable pub recompute_block_hash : ℕ → Text → Text → ℕ → Text → Text
  recompute_block_hash height prev_hash merkle_root ts proposer =
      codes "0x"
      ++ hex_encode (
          lib.sha256 (
            show_nat height
            ++ (codes "|"
                ++ (prev_hash
                    ++ (codes "|"
                        ++ (merkle_root
                            ++ (codes "|" ++ (show_int64 ts ++ (codes "|" ++ proposer)))))))))

  unfoldable pub verify_sealer_signature : ℕ → Text → Text → Text → Result (Unit {0})
  verify_sealer_signature height block_hash signature proposer = do
    guard (not (is_empty signature)) signature_required
    guard (not (is_empty proposer)) missing_proposer
    matches ← verify_eip191 lib (build_chain_signing_message height block_hash) signature proposer
    guard matches signature_mismatch

  -- The loop that checks each transaction. The calls stamp the block's own transactions.
  unfoldable pub validate_all : Text → ℕ → List (Option Transaction) → Result (List Transaction)
  validate_all env now [] = ok []
  validate_all env now (none ∷ txs) = err nil_transaction
  validate_all env now (some t ∷ txs) = do
    stamped ← validate_basic lib env now t
    rest ← validate_all env now txs
    ok (stamped ∷ rest)

  -- The signature's part of the check.
  unfoldable pub check_seal : GossipBlockInput → Result (Unit {0})
  check_seal b =
      if is_empty b.signature
      then guard (not (ltb 1 (length b.allowed_proposers))) missing_seal
      else verify_sealer_signature b.height b.hash b.signature b.proposer

  -- The checks up to the proposer's membership.
  unfoldable pub check_link : GossipBlockInput → Store → Result (Unit {0})
  unfolding is_allowed
  check_link b s = do
    guard (b.height == inc64 (get_latest_height s)) height_mismatch
    expected ← expected_prev s
    guard (text_eq b.prev_hash expected) prev_hash_mismatch
    guard (length b.allowed_proposers == 0 || is_allowed b.proposer b.allowed_proposers)
        proposer_not_validator

  -- The checks from the jail on; the result is the transactions to apply.
  unfoldable pub check_body : Text → ℕ → GossipBlockInput → Bool → Result (List Transaction)
  check_body env now b jailed = do
    guard (not jailed) proposer_jailed
    txs ← validate_all env now b.txs
    let merkle = recompute_merkle_root (map prefixed_hash txs)
    let recomputed = recompute_block_hash b.height b.prev_hash merkle b.timestamp b.proposer
    guard (text_eq recomputed b.hash) block_hash_mismatch
    check_seal b
    ok txs

  unfoldable pub gossiped_header : GossipBlockInput → List Transaction → BlockHeader
  gossiped_header b txs = record {
    height = b.height;
    hash = b.hash;
    prev_hash = b.prev_hash;
    state_root = [];
    tx_hashes = map prefixed_hash txs;
    timestamp = b.timestamp;
    proposer = b.proposer;
    tx_count = length txs;
    signature = b.signature;
    last_commit_round = 0;
    last_commit_votes = 0;
  }

  abbrev save_applied : BlockHeader → Store × Result (Unit {0}) → Store × Result (Unit {0})
  save_applied h (s, ok u) = (save_block h s, ok tt)
  save_applied h (s, err e) = (s, err e)

  -- `s` is the store after the look-up of the jail.
  save_checked : GossipBlockInput → Result (List Transaction) → Store → Store × Result (Unit {0})
  unfolding apply_until
  save_checked b (err e) s = (s, err e)
  save_checked b (ok txs) s = save_applied (gossiped_header b txs) (apply_until txs s)

  verify_linked :
      Text → ℕ → GossipBlockInput → Result (Unit {0}) → Store → Store × Result (Unit {0})
  unfolding save_checked check_body
  verify_linked env now b (err e) s = (s, err e)
  verify_linked env now b (ok u) s =
      let (looked, jailed) = is_jailed now b.proposer s in
      save_checked b (check_body env now b (is_some jailed)) looked

  -- The store after the call, and what it returns: each ApplyTx commits by itself.
  unfoldable pub verify_and_save_gossiped_block_strict :
      Text → ℕ → GossipBlockInput → Store → Store × Result (Unit {0})
  unfolding verify_linked check_link
  verify_and_save_gossiped_block_strict env now b s = verify_linked env now b (check_link b s) s

  -- VerifyAndSaveGossipedBlock: no signature and no proposer set.
  unfoldable pub verify_and_save_gossiped_block :
      Text → ℕ → GossipBlockInput → Store → Store × Result (Unit {0})
  unfolding verify_and_save_gossiped_block_strict
  verify_and_save_gossiped_block env now b s =
      verify_and_save_gossiped_block_strict env now
        (record b { signature = []; allowed_proposers = [] }) s

  abbrev pub sealer_signature : Text → ℕ → Text → Result Text
  sealer_signature key height block_hash =
      if is_empty key
      then ok []
      else sign_eip191 lib (build_chain_signing_message height block_hash) key

  abbrev pub sealed_block :
      ℕ → Text → Text → ℕ → Text → Text → List Transaction → Store → BlockHeader
  sealed_block height hash prev ts proposer sig applied s = record {
    height = height;
    hash = hash;
    prev_hash = prev;
    state_root = compute_state_root lib s;
    tx_hashes = map prefixed_hash applied;
    timestamp = ts;
    proposer = proposer;
    tx_count = length applied;
    signature = sig;
    last_commit_round = 0;
    last_commit_votes = 0;
  }

  wrap : Transaction → Option Transaction
  wrap t = some t

  -- SealBlockWithTxs past the previous hash; `ts` is the wall clock.
  unfoldable pub seal_next :
      Text → Text → ℕ → Text → List Transaction → Store → Store × Result SealResult
  unfolding wrap
  seal_next key proposer ts prev txs s =
      let height = inc64 (get_latest_height s) in
      let (after, applied) = apply_each txs s in
      let merkle = recompute_merkle_root (map prefixed_hash applied) in
      let hash = recompute_block_hash height prev merkle ts proposer in
      elim (sealer_signature key height hash) [
        | err e ↦ (after, err e)
        | ok sig ↦
            let header = sealed_block height hash prev ts proposer sig applied after in
            (
              save_block_with_txs lib header (map wrap applied) after,
              ok (record { header = header; sealer_sig = sig; txs = applied }),
            )
      ]

  unfoldable pub seal_block_with_txs :
      Text → Text → ℕ → List Transaction → Store → Store × Result SealResult
  unfolding seal_next
  seal_block_with_txs key proposer ts txs s = elim (expected_prev s) [
    | err e ↦ (s, err e)
    | ok prev ↦ seal_next key proposer ts prev txs s
  ]

  unfoldable pub seal_empty_block : Text → Text → ℕ → Store → Store × Result SealResult
  unfolding seal_block_with_txs
  seal_empty_block key proposer ts s = seal_block_with_txs key proposer ts [] s

  unfoldable pub proposal_header : Proposal → Text → Store → BlockHeader
  proposal_header p sig s = record {
    height = p.height;
    hash = p.block_hash;
    prev_hash = p.prev_hash;
    state_root = compute_state_root lib s;
    tx_hashes = p.tx_hashes;
    timestamp = p.timestamp;
    proposer = p.proposer;
    tx_count = length p.tx_hashes;
    signature = sig;
    last_commit_round = 0;
    last_commit_votes = 0;
  }

  -- bft.go: `sealFromProposal`.
  unfoldable pub seal_from_proposal :
      Proposal → List Transaction → Text → Store → Store × Result SealResult
  unfolding proposal_header
  seal_from_proposal p txs key s =
      let (after, applied) = apply_each txs s in
      elim (sealer_signature key p.height p.block_hash) [
        | err e ↦ (after, err e)
        | ok sig ↦
            let header = proposal_header p sig after in
            (
              save_block header after,
              ok (record { header = header; sealer_sig = sig; txs = applied }),
            )
      ]
