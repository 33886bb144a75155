-- ===== src/Api/Server.antt =====
-- internal/api/server.go: the server's state, what it is asked and what it answers. `None` in an
-- optional part is a nil pointer; a body that does not decode is `none`.
use east_validator.Prelude.{ℕ, Bool, List, [], ◌∷◌, Option, none, some, if◌then◌else◌}
use east_validator.Prelude.Text.{Text}
use east_validator.Genesis.{Bucket}
use east_validator.Errors.{Error}
use east_validator.Tx.{Transaction, TxType}
use east_validator.State.{Account, BlockHeader, Store, StoredTx, JailRecord, HeartbeatRecord}
use east_validator.State.Uptime.{UptimeScore}
use east_validator.State.Backup.{BackupSnapshot}
use east_validator.Merkle.{MerkleProof}
use east_validator.Mempool.{Mempool}
use east_validator.Consensus.Leader.{LeaderSchedule, LeaderStats}
use east_validator.Config.{Config}

-- What is published to the p2p network by a heartbeat.
pub record HeartbeatMsg : Type 0 where
  pub address : Text
  pub node_id : Text
  pub tier : Text
  pub height : ℕ

-- `published` is none without p2p; `written` holds the snapshots that were written to files.
pub record Server : Type 0 where
  pub cfg : Config
  pub store : Store
  pub pool : Option Mempool
  pub leader : Option LeaderSchedule
  pub published : Option (List HeartbeatMsg)
  pub written : List BackupSnapshot

-- The wall clock in milliseconds, the oracle's address in the environment, and the files.
pub record World : Type 0 where
  pub now : ℕ
  pub oracle : Text
  pub files : Text → Option BackupSnapshot

-- `unix_ms` is an int64.
pub record HeartbeatRequest : Type 0 where
  pub address : Text
  pub node_id : Text
  pub tier : Text
  pub unix_ms : ℕ
  pub signature : Text

pub record ValidatorRegisterRequest : Type 0 where
  pub address : Text
  pub unix_ms : ℕ
  pub signature : Text

pub record SeedRequest : Type 0 where
  pub address : Text
  pub balance : ℕ
  pub staked : ℕ
  pub pending_unstake : ℕ
  pub mode : Text

pub record RestoreRequest : Type 0 where
  pub path : Text
  pub force : Bool

-- The parameters as a list of strings, and as a list of any values, which are printed.
pub record RpcRequest : Type 0 where
  pub method : Text
  pub strings : Option (List Text)
  pub values : Option (List Text)

-- The route that matches, for the handlers that are modelled.
pub data Route : Type 0 where
  at_rpc : Option RpcRequest → Route
  at_account at_account_proof at_block at_bucket at_uptime : Text → Route
  at_latest_block at_supply : Route
  at_heartbeat : Option HeartbeatRequest → Route
  at_epoch_scores : Text → Text → Route
  at_submit_tx : Option Transaction → Route
  at_mempool_txs : Text → Route
  at_propose at_leader at_get_validators : Route
  at_register : Option ValidatorRegisterRequest → Route
  at_set_validators : Option (List Text) → Route
  at_seed : Option SeedRequest → Route
  at_prune at_backup at_list_jailed : Route
  at_get_snapshot : Text → Route
  at_post_snapshot : Option BackupSnapshot → Text → Route
  at_restore_accounts : Option RestoreRequest → Route
  at_unjail : Option Text → Route

-- `secret` is the X-API-Secret header.
pub record Request : Type 0 where
  pub secret : Text
  pub route : Route

pub data RpcResult : Type 0 where
  null : RpcResult
  quantity : Text → RpcResult
  block_result : BlockHeader → RpcResult
  tx_result : StoredTx → RpcResult
  account_result : Account → RpcResult
  proof_result : MerkleProof → RpcResult
  rpc_error : ℕ → Error → RpcResult

-- The body of an answer: http.Error's text, a literal or an error's, or the JSON's content.
pub data Body : Type 0 where
  plain : Text → Body
  refusal : Error → Body
  rpc_body : RpcResult → Body
  account_body : Account → Body
  proof_body : MerkleProof → Body
  header_body : BlockHeader → Body
  no_block : Body
  supply_body : ℕ → List Bucket → Body
  bucket_body : Bucket → Body
  heartbeat_body : HeartbeatRecord → Body
  score_body : UptimeScore → Body
  scores_body : ℕ → List HeartbeatRecord → Body
  tx_body : Text → TxType → Text → Body
  txs_body : List Transaction → Body
  leader_body : LeaderStats → Body
  disabled : Body
  validators_body : List Text → Body
  seeded_body : Text → Text → Account → Body
  kept_body : ℕ → Body
  snapshot_body : BackupSnapshot → Body
  imported_body : ℕ → ℕ → ℕ → Body
  applied_body : ℕ → Body
  jailed_body : List JailRecord → Body
  address_body : Text → Body
  done : Body

pub record Response : Type 0 where
  pub status : ℕ
  pub body : Body

abbrev pub answer : Body → Response
answer body = record { status = 200; body = body }

abbrev pub http_error : Text → ℕ → Response
http_error message status = record { status = status; body = plain message }

abbrev pub http_error_of : Error → ℕ → Response
http_error_of e status = record { status = status; body = refusal e }

-- The first test that holds gives the answer.
unfoldable pub first_refusal : List (Bool × Response) → Option Response
first_refusal [] = none
first_refusal ((test, refused) ∷ rest) =
    let later = first_refusal rest in if test then some refused else later

-- The state as it is, and an error.
abbrev pub refuse : Server → Error → ℕ → Server × Response
refuse s e status = (s, http_error_of e status)
