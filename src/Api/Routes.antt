-- ===== src/Api/Routes.antt =====
-- internal/api/server.go: the table of routes, and the secret that some of them ask for.
pub mod Guarded
pub mod Signed
use east_validator.Prelude.{Bool, true, false, not, ◌||◌, if◌then◌else◌}
use east_validator.Prelude.Text.{Text, codes, text_eq, is_empty}
use east_validator.Crypto.{Crypto}
use east_validator.Api.Server.{
  HeartbeatMsg, Server, World, HeartbeatRequest, ValidatorRegisterRequest, SeedRequest,
  RestoreRequest, RpcRequest, Route, Request, RpcResult, Body, Response, answer, http_error,
  http_error_of, first_refusal, at_rpc, at_account, at_account_proof, at_block, at_bucket,
  at_uptime, at_latest_block, at_supply, at_heartbeat, at_epoch_scores, at_submit_tx,
  at_mempool_txs, at_propose, at_leader, at_get_validators, at_register, at_set_validators, at_seed,
  at_prune, at_backup, at_list_jailed, at_get_snapshot, at_post_snapshot, at_restore_accounts,
  at_unjail, null, quantity, block_result, tx_result, account_result, proof_result, rpc_error,
  plain, refusal, rpc_body, account_body, proof_body, header_body, no_block, supply_body,
  bucket_body, heartbeat_body, score_body, scores_body, tx_body, txs_body, leader_body, disabled,
  validators_body, seeded_body, kept_body, snapshot_body, imported_body, applied_body, jailed_body,
  address_body, done,
}
use east_validator.Api.Reads.{
  handle_get_account, handle_account_proof, handle_latest_block, handle_get_block, handle_supply,
  handle_bucket, handle_uptime, handle_epoch_scores, handle_mempool_txs, handle_leader,
  handle_get_validators, handle_list_jailed,
}
use east_validator.Api.Rpc.{handle_json_rpc}
use east_validator.Api.Writes.{
  handle_heartbeat, handle_register_validator, handle_set_validators, handle_submit_tx,
}
use east_validator.Api.Admin.{
  handle_get_snapshot, handle_propose, handle_seed, handle_prune, handle_backup,
  handle_post_snapshot, handle_restore_accounts, handle_unjail,
}

-- The test of the header.
unfoldable pub is_authorized : Text → Server → Bool
is_authorized secret s = is_empty s.cfg.api_secret || text_eq secret s.cfg.api_secret

abbrev pub auth : Text → Server → Server × Response → Server × Response
auth secret s handled =
    if is_authorized secret s then handled else (s, http_error (codes "unauthorized") 401)

module _ (lib : Crypto) (w : World) where
  unfoldable pub serve : Request → Server → Server × Response
  unfolding is_authorized
  serve req s = elim (req.route) [
    | at_rpc body ↦ (s, handle_json_rpc lib body s.store)
    | at_account addr ↦ (s, handle_get_account addr s.store)
    | at_account_proof addr ↦ (s, handle_account_proof lib addr s.store)
    | at_block height ↦ (s, handle_get_block height s.store)
    | at_bucket name ↦ (s, handle_bucket name s.store)
    | at_uptime addr ↦ (s, handle_uptime addr s.cfg.epoch_seconds s.store)
    | at_latest_block ↦ (s, handle_latest_block s.store)
    | at_supply ↦ (s, handle_supply s.store)
    | at_heartbeat body ↦ handle_heartbeat lib w body s
    | at_epoch_scores epoch limit ↦ (s, handle_epoch_scores epoch limit s.store)
    | at_submit_tx body ↦ auth req.secret s (handle_submit_tx lib w body s)
    | at_mempool_txs limit ↦ (s, handle_mempool_txs limit s.pool)
    | at_propose ↦ auth req.secret s (handle_propose s)
    | at_leader ↦
        let (after, shown) = handle_leader w.now s.leader s.store in
        (record s { store = after }, shown)
    | at_get_validators ↦ (s, handle_get_validators s.leader)
    | at_register body ↦ handle_register_validator lib w body s
    | at_set_validators body ↦ auth req.secret s (handle_set_validators w body s)
    | at_seed body ↦ auth req.secret s (handle_seed body s)
    | at_prune ↦ auth req.secret s (handle_prune s)
    | at_backup ↦ auth req.secret s (handle_backup w s)
    | at_list_jailed ↦ (s, handle_list_jailed w.now s.store)
    | at_get_snapshot max_blocks ↦ auth req.secret s (handle_get_snapshot w max_blocks s)
    | at_post_snapshot body force ↦ auth req.secret s (handle_post_snapshot w body force s)
    | at_restore_accounts body ↦ auth req.secret s (handle_restore_accounts w body s)
    | at_unjail body ↦ auth req.secret s (handle_unjail body s)
  ]
