-- ===== src/Tests/Proofs.antt =====
-- Runs of the theorems on Merkle proofs and on the sealing of blocks at the test's data.
use east_validator.Prelude.{
  ap, sym, ℕ, zero, suc, ◌≡◌, refl, ◌≢◌, List, [], ◌∷◌, ◌++◌, Option, none, some, true, arith, All,
  length, ◌==◌, ◌||◌,
}
use east_validator.Prelude.Text.{Text, codes, text_eq, text_lt, to_lower, trim_space, equal_fold}
use east_validator.Prelude.Maps.{lookup}
use east_validator.Prelude.Format.{IsByte}
use east_validator.Crypto.Recovery.{Signing}
use east_validator.State.Accounts.{get_or}
use east_validator.Crypto.{
  Crypto, address_from_private_key, sign_eip191, verify_eip191, recover_address,
}
use east_validator.Tx.{Transaction, validate_basic}
use east_validator.State.{normalize_addr}
use east_validator.State.Roster.{is_jailed}
use east_validator.Merkle.{
  load_sorted_leaves, sort_leaves, find_leaf, prove_account, verify_merkle_proof, inclusion_proof,
  root_of, build_merkle_layers,
}
use east_validator.Merkle.Leaves.{IsDigest}
use east_validator.Merkle.Complete.{prove_account_verifies}
use east_validator.Merkle.Duplicate.{duplicate_root}
use east_validator.Consensus.Seal.{
  SealResult, is_allowed, seal_block_with_txs, verify_and_save_gossiped_block_strict, expected_prev,
}
use east_validator.State.Blocks.{get_latest_height}
use east_validator.Consensus.Seal.Gossip.{Accepted, verify_and_save_gossiped_block_strict-Accepted}
use east_validator.Consensus.Seal.RoundTrip.{announced, sealed_is_accepted}
use east_validator.Errors.{ok, or_else}
use east_validator.Tests.{alice, ledger, pay, library, digest, zeros}

zeros-IsByte : (n : ℕ) → All IsByte (zeros n)
zeros-IsByte zero = tt
zeros-IsByte (suc n) = (omega arith, zeros-IsByte n)

digest-IsDigest : (x : List ℕ) → IsDigest (digest x)
digest-IsDigest x = (refl, (omega arith, zeros-IsByte 31))

ledger_has_accounts : ledger.accounts ≢ []
ledger_has_accounts e = cc

alice_is_first : (prove_account library alice ledger).leaf_index ≡ some 0
unfolding prove_account load_sorted_leaves sort_leaves text_lt to_lower find_leaf text_eq
    normalize_addr trim_space inclusion_proof
alice_is_first = refl

prove_account_verifies_example :
    verify_merkle_proof library (prove_account library alice ledger) ≡ ok tt
prove_account_verifies_example =
    prove_account_verifies library digest-IsDigest alice ledger 0 ledger_has_accounts alice_is_first

duplicate_root_example :
    root_of library
      (build_merkle_layers library (digest [] ∷ digest [] ∷ [] ++ digest (0 ∷ []) ∷ []))
    ≡ root_of library (
        build_merkle_layers library
          (digest [] ∷ digest [] ∷ [] ++ digest (0 ∷ []) ∷ digest (0 ∷ []) ∷ []))
duplicate_root_example = duplicate_root library (digest []) (digest []) [] (digest (0 ∷ [])) refl

abbrev no_block : SealResult
no_block = record {
  header = record {
    height = 0;
    hash = [];
    prev_hash = [];
    state_root = [];
    tx_hashes = [];
    timestamp = 0;
    proposer = [];
    tx_count = 0;
    signature = [];
    last_commit_round = 0;
    last_commit_votes = 0;
  };
  sealer_sig = [];
  txs = [];
}

-- A text of bytes is a digit and the bytes; every key is Alice's.
abbrev decode_bytes : Text → Option (List ℕ)
decode_bytes [] = none
decode_bytes (c ∷ bytes) = some bytes

abbrev signer : Crypto
signer = record library { hexutil_decode = decode_bytes; hexutil_encode = λ b. 48 ∷ b }

signer-Signing : Signing signer
signer-Signing = record {
  decode_encode = λ bs bytes. refl;
  decode_empty = refl;
  sign_recovers = λ d key sig e. (
    zeros 64,
    0,
    alice,
    ap (λ o. get_or o []) (sym e),
    refl,
    zeros-IsByte 64,
    omega arith,
    refl,
    refl,
  );
}

abbrev key_text : Text
key_text = codes "key"

abbrev signed_pay : Transaction
signed_pay = record pay { signature = 48 ∷ zeros 65 }

-- The block that Alice seals with her payment.
abbrev sealed : SealResult
sealed =
    or_else (seal_block_with_txs signer key_text alice 5000 (signed_pay ∷ []) ledger).1 no_block

block_is_sealed :
    (seal_block_with_txs signer key_text alice 5000 (signed_pay ∷ []) ledger).1 ≡ ok sealed
unfolding seal_block_with_txs expected_prev get_latest_height sign_eip191
block_is_sealed = refl

pay_is_valid : All (λ t. validate_basic signer [] 6000 t ≡ ok t) (signed_pay ∷ [])
unfolding validate_basic verify_eip191 recover_address equal_fold
pay_is_valid = (refl, tt)

alice_is_free : is_jailed 6000 alice ledger ≡ (ledger, none)
unfolding is_jailed lookup
alice_is_free = refl

alice_is_the_key : address_from_private_key signer key_text ≡ ok alice
unfolding address_from_private_key
alice_is_the_key = refl

alice_is_alice : equal_fold alice alice ≡ true
unfolding equal_fold
alice_is_alice = refl

alice_may_propose : (length (alice ∷ []) == 0 || is_allowed alice (alice ∷ [])) ≡ true
unfolding is_allowed equal_fold
alice_may_propose = refl

sealed_is_accepted_example :
    (verify_and_save_gossiped_block_strict signer [] 6000 (announced sealed (alice ∷ [])) ledger).1
    ≡ ok tt
sealed_is_accepted_example =
    sealed_is_accepted signer key_text alice alice [] 5000 6000 (signed_pay ∷ []) ledger sealed
      (alice ∷ []) signer-Signing refl alice_is_the_key alice_is_alice refl pay_is_valid
      alice_may_propose alice_is_free block_is_sealed

block_is_accepted :
    (verify_and_save_gossiped_block_strict signer [] 6000 (announced sealed (alice ∷ [])) ledger).1
    ≡ ok tt
block_is_accepted =
    sealed_is_accepted signer key_text alice alice [] 5000 6000 (signed_pay ∷ []) ledger sealed
      (alice ∷ []) signer-Signing refl alice_is_the_key alice_is_alice refl pay_is_valid
      alice_may_propose alice_is_free block_is_sealed

verify_and_save_gossiped_block_strict-Accepted_example :
    Accepted signer [] 6000
      (announced sealed (alice ∷ []))
      ledger
      (verify_and_save_gossiped_block_strict signer [] 6000
        (announced sealed (alice ∷ []))
        ledger).0
verify_and_save_gossiped_block_strict-Accepted_example =
    verify_and_save_gossiped_block_strict-Accepted signer [] 6000 (announced sealed (alice ∷ []))
      ledger block_is_accepted
