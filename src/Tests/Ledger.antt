-- ===== src/Tests/Ledger.antt =====
-- Runs of the ledger's theorems at the test's data.
use east_validator.Prelude.{
  All, ℕ, ◌+◌, ◌*◌, ◌≡◌, ◌<◌, refl, [], ◌∷◌, some, false, arith, if◌then◌else◌,
}
use east_validator.Prelude.Int.{lt64, two63, ◌+64◌, div64}
use east_validator.Prelude.Text.{codes, text_eq, to_lower, trim_space, equal_fold}
use east_validator.Prelude.Maps.{lookup, insert}
use east_validator.Tx.{
  Transaction, transfer, claim_mining, decoded, parse_claim_mining_payload, subunits_per_east,
}
use east_validator.State.{Store, normalize_addr, BlockHeader}
use east_validator.State.Accounts.{
  get_account, get_account_txn, mint_from_bucket_txn, set_account_txn,
}
use east_validator.State.Accounts.Lookup.{IsNormal}
use east_validator.State.Accounts.Holdings.{holdings}
use east_validator.State.Apply.{apply_tx, apply_type, claim_credit}
use east_validator.State.Apply.Accounting.{apply_tx-holdings, own_transfer_mints, minted_by}
use east_validator.State.Apply.Nonces.{apply_tx_no_replay, nonce_zero_reopens, IsForeign}
use east_validator.State.Apply.Caps.{apply_tx-BucketsSound, BucketsSound}
use east_validator.Genesis.{default, validate, east_chain_id, total_max_supply}
use east_validator.Genesis.Checked.{IsFair, validate_sound}
use east_validator.State.Seed.{seed_account, seed_mode, seeded}
use east_validator.State.Seed.Accounts.{seed_account_local}
use east_validator.State.Roster.{jail_validator, is_jailed}
use east_validator.State.Roster.Jail.{jailed_until, found_address}
use east_validator.Errors.{ok, err, invalid_nonce, or_else}
use east_validator.Tests.{alice, bob, ledger, pay}

-- The ledger after the payment.
abbrev paid : Store
paid = record ledger {
  accounts =
      (alice, record { balance = 70; staked = 0; pending_unstake = 0; nonce = 1 })
      ∷ (bob, record { balance = 35; staked = 0; pending_unstake = 0; nonce = 0 })
      ∷ [];
}

ledger-IsNormal : IsNormal ledger
unfolding normalize_addr to_lower trim_space
ledger-IsNormal = (refl, (refl, tt))

pay_is_applied : apply_tx pay ledger ≡ ok paid
unfolding apply_tx apply_type get_account_txn lookup text_eq normalize_addr to_lower trim_space
    set_account_txn insert
pay_is_applied = refl

pay-IsForeign : IsForeign pay
unfolding normalize_addr to_lower trim_space text_eq
pay-IsForeign e = refl

paid_is_small : holdings ledger + minted_by transfer pay < two63
unfolding text_eq normalize_addr to_lower trim_space
paid_is_small = omega arith

apply_tx-holdings_example : holdings paid ≡ holdings ledger + minted_by transfer pay
apply_tx-holdings_example =
    apply_tx-holdings pay ledger ledger-IsNormal (omega arith) paid_is_small pay_is_applied

apply_tx_no_replay_example : apply_tx pay paid ≡ err invalid_nonce
apply_tx_no_replay_example =
    apply_tx_no_replay pay ledger ledger-IsNormal pay-IsForeign (omega arith) pay_is_applied

abbrev first_pay : Transaction
first_pay = record pay { nonce = 0 }

abbrev reopened : Store
reopened = record ledger {
  accounts =
      (alice, record { balance = 70; staked = 0; pending_unstake = 0; nonce = 0 })
      ∷ (bob, record { balance = 35; staked = 0; pending_unstake = 0; nonce = 0 })
      ∷ [];
}

first_pay_is_applied : apply_tx first_pay ledger ≡ ok reopened
unfolding apply_tx apply_type get_account_txn lookup text_eq normalize_addr to_lower trim_space
    set_account_txn insert
first_pay_is_applied = refl

first_pay-IsForeign : IsForeign first_pay
unfolding normalize_addr to_lower trim_space text_eq
first_pay-IsForeign e = refl

nonce_zero_reopens_example :
    apply_tx pay reopened ≡ apply_type transfer pay (get_account alice reopened) reopened
nonce_zero_reopens_example =
    nonce_zero_reopens first_pay pay ledger ledger-IsNormal first_pay-IsForeign refl refl
      first_pay_is_applied

-- Alice pays herself, in another spelling.
abbrev own_pay : Transaction
own_pay = record pay { to = codes "0xAA" }

abbrev richer : Store
richer = record ledger {
  accounts =
      (alice, record { balance = 130; staked = 0; pending_unstake = 0; nonce = 0 })
      ∷ (bob, record { balance = 5; staked = 0; pending_unstake = 0; nonce = 0 })
      ∷ [];
}

own_pay_is_applied : apply_tx own_pay ledger ≡ ok richer
unfolding apply_tx apply_type get_account_txn lookup text_eq normalize_addr to_lower trim_space
    set_account_txn insert
own_pay_is_applied = refl

own_pay_is_own : normalize_addr alice ≡ normalize_addr (codes "0xAA")
unfolding normalize_addr to_lower trim_space
own_pay_is_own = refl

own_transfer_mints_example :
    ((get_account alice richer).balance ≡ (get_account alice ledger).balance +64 30)
    × ((get_account alice richer).nonce ≡ (get_account alice ledger).nonce)
own_transfer_mints_example =
    own_transfer_mints own_pay ledger ledger-IsNormal refl own_pay_is_own own_pay_is_applied

abbrev claim : Transaction
claim = record pay {
  type = claim_mining;
  amount = 10;
  payload =
      decoded (record { bucket = codes "mining"; epoch_id = 1; oracle_signature = codes "0x01" });
}

claim_is_applied : apply_tx claim ledger ≡ ok (or_else (apply_tx claim ledger) ledger)
unfolding apply_tx apply_type get_account_txn lookup text_eq normalize_addr to_lower trim_space
    set_account_txn insert parse_claim_mining_payload equal_fold mint_from_bucket_txn claim_credit
    div64
claim_is_applied = refl

ledger_is_sound : BucketsSound ledger
ledger_is_sound = (record { within = omega arith; small = omega arith }, tt)

apply_tx-BucketsSound_example : BucketsSound (or_else (apply_tx claim ledger) ledger)
apply_tx-BucketsSound_example =
    apply_tx-BucketsSound claim ledger (omega arith) ledger_is_sound claim_is_applied

claim_credit_of_ten : claim_credit 10 ≡ ok (10 * subunits_per_east)
unfolding claim_credit div64
claim_credit_of_ten = refl

-- A chain of three blocks, of which the last two are kept.
abbrev block : ℕ → BlockHeader
block height = record {
  height = height;
  hash = codes "0x0b";
  prev_hash = [];
  state_root = [];
  tx_hashes = [];
  timestamp = 0;
  proposer = alice;
  tx_count = 0;
  signature = [];
  last_commit_round = 0;
  last_commit_votes = 0;
}

abbrev chain : Store
chain = record ledger {
  blocks = (1, block 1) ∷ (2, block 2) ∷ (3, block 3) ∷ [];
  latest_height = some 3;
}

abbrev jailed_bob : Store
jailed_bob = or_else (jail_validator 1000 bob (codes "equivocation") [] 60000 ledger) ledger

bob_goes_to_jail : jail_validator 1000 bob (codes "equivocation") [] 60000 ledger ≡ ok jailed_bob
unfolding jail_validator normalize_addr to_lower trim_space
bob_goes_to_jail = refl

other_spelling : normalize_addr (codes " 0xBB") ≡ normalize_addr bob
unfolding normalize_addr to_lower trim_space
other_spelling = refl

jailed_until_example :
    found_address (is_jailed 2000 (codes " 0xBB") jailed_bob).1 ≡ some (normalize_addr bob)
jailed_until_example =
    jailed_until 1000 2000 bob (codes " 0xBB") (codes "equivocation") [] 60000 ledger jailed_bob
      bob_goes_to_jail other_spelling refl (omega arith) (omega arith)

seed_account_local_example :
    ((get_account (codes "0xAA") (seed_account alice 900 0 0 (codes "merge") ledger)).nonce
      ≡ (get_account (codes "0xAA") ledger).nonce)
    × (get_account (codes "0xAA") (seed_account alice 900 0 0 (codes "merge") ledger) ≡ (
        if text_eq (normalize_addr alice) (normalize_addr (codes "0xAA"))
        then seeded (seed_mode (codes "merge")) 900 0 0 (get_account alice ledger)
        else get_account (codes "0xAA") ledger))
seed_account_local_example =
    seed_account_local alice (codes "0xAA") 900 0 0 (codes "merge") ledger ledger-IsNormal

default_is_valid : validate (default 1000) ≡ ok (default 1000)
unfolding validate
default_is_valid = refl

validate_sound_example :
    ((default 1000).numeric_chain_id ≡ east_chain_id)
    × ((default 1000).max_supply ≡ total_max_supply)
    × All IsFair (default 1000).buckets
    × (lt64 (default 1000).min_validator_stake (default 1000).min_fullnode_stake ≡ false)
    × (default 1000 ≡ record (default 1000) {
      numeric_chain_id = (default 1000).numeric_chain_id;
      min_validator_stake = (default 1000).min_validator_stake;
      min_fullnode_stake = (default 1000).min_fullnode_stake;
    })
validate_sound_example = validate_sound (default 1000) (default 1000) default_is_valid
