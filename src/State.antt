-- ===== src/State.antt =====
-- internal/state/state.go: the records of the database and its key spaces. The database itself
-- (badger) is a set of maps, one for each key prefix ("acc:", "bucket:", "blk:", "blktxs:", "tx:",
-- "jail:", "hb:", "epoch:"), and one field for each "meta:" key. Reads and writes do not fail
-- otherwise than by a missing key, and a stored value decodes to what was encoded. A transaction
-- that fails writes nothing: an operation that can fail gives `Result Store`.
pub mod Accounts
pub mod Apply
pub mod Blocks
pub mod Seed
pub mod Roster
pub mod Uptime
pub mod Backup
use east_validator.Prelude.{ℕ, Bool, false, List, [], Option, none}
use east_validator.Prelude.Text.{Text, to_lower, trim_space}
use east_validator.Genesis.{Bucket}
use east_validator.Tx.{Transaction}

pub record Account : Type 0 where
  pub balance : ℕ
  pub staked : ℕ
  pub pending_unstake : ℕ
  pub nonce : ℕ

abbrev pub zero_account : Account
zero_account = record { balance = 0; staked = 0; pending_unstake = 0; nonce = 0 }

pub record BlockHeader : Type 0 where
  pub height : ℕ
  pub hash : Text
  pub prev_hash : Text
  pub state_root : Text
  pub tx_hashes : List Text
  pub timestamp : ℕ
  pub proposer : Text
  pub tx_count : ℕ
  pub signature : Text
  pub last_commit_round : ℕ
  pub last_commit_votes : ℕ

pub record StoredTx : Type 0 where
  pub transaction : Transaction
  pub height : ℕ
  pub hash : Text

pub record ValidatorSetRecord : Type 0 where
  pub addresses : List Text
  pub updated_at : ℕ
  pub epoch : ℕ

pub record JailRecord : Type 0 where
  pub address : Text
  pub reason : Text
  pub jailed_at : ℕ
  pub until : ℕ
  pub evidence : Text

pub record HeartbeatRecord : Type 0 where
  pub address : Text
  pub node_id : Text
  pub tier : Text
  pub last_seen : ℕ
  pub epoch_id : ℕ
  pub count : ℕ
  pub first_seen : ℕ

pub record Store : Type 0 where
  pub accounts : List (Text × Account)
  pub buckets : List (Text × Bucket)
  pub blocks : List (ℕ × BlockHeader)
  pub block_txs : List (ℕ × List StoredTx)
  pub tx_index : List (Text × StoredTx)
  pub latest_height : Option ℕ
  pub genesis_applied : Bool
  pub validator_set : Option ValidatorSetRecord
  pub jail : List (Text × JailRecord)
  pub heartbeats : List (Text × HeartbeatRecord)
  pub epoch_scores : List (Text × List (ℕ × HeartbeatRecord))
  pub total_max_supply : ℕ
  pub min_validator_stake : ℕ
  pub chain_signing_address : Text
  pub numeric_chain_id : ℕ

-- The store that `Open` gives on an empty directory.
abbrev pub open_store : Store
open_store = record {
  accounts = [];
  buckets = [];
  blocks = [];
  block_txs = [];
  tx_index = [];
  latest_height = none;
  genesis_applied = false;
  validator_set = none;
  jail = [];
  heartbeats = [];
  epoch_scores = [];
  total_max_supply = 0;
  min_validator_stake = 0;
  chain_signing_address = [];
  numeric_chain_id = 0;
}

unfoldable pub normalize_addr : Text → Text
normalize_addr addr = to_lower (trim_space addr)
