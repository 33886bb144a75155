-- ===== src/Api/Rpc.antt =====
-- internal/api/jsonrpc.go: the read-only Ethereum JSON-RPC. The request's id is only echoed, and
-- a block's extra fields are left out.
pub mod Tags
use east_validator.Prelude.{
  ℕ, Bool, ◌||◌, List, [], ◌∷◌, ◌++◌, Option, none, some, ◌==◌, if◌then◌else◌,
}
use east_validator.Prelude.Text.{Text, codes, text_eq, to_lower, trim_space, is_empty}
use east_validator.Prelude.Format.{show_int64}
use east_validator.Prelude.Parse.{
  Parsed, value, bad_syntax, out_of_range, parse_uint, show_hex, show_hex64,
}
use east_validator.Crypto.{Crypto, trim_0x}
use east_validator.Errors.{
  Result, ok, err, ◌>>=◌, bad_params, bad_number, method_not_found, bad_json,
}
use east_validator.State.{Store}
use east_validator.State.Accounts.{get_account}
use east_validator.State.Blocks.{get_block, get_latest_height, get_transaction}
use east_validator.Merkle.{prove_account}
use east_validator.Api.Server.{
  HeartbeatMsg, Server, World, HeartbeatRequest, ValidatorRegisterRequest, SeedRequest,
  RestoreRequest, RpcRequest, Route, Request, RpcResult, Body, Response, answer, http_error,
  http_error_of, first_refusal, at_rpc, at_account, at_account_proof, at_block, at_bucket,
  at_uptime, at_latest_block, at_supply, at_heartbeat, at_epoch_scores, at_submit_tx,
  at_mempool_txs, at_propose, at_leader, at_get_validators, at_register, at_set_validators, at_seed,
  at_prune, at_backup, at_list_jailed, at_get_snapshot, at_post_snapshot, at_restore_accounts,
  at_unjail, null, quantity, block_result, tx_result, account_result, proof_result, rpc_error,
  plain, refusal, rpc_body, account_body, proof_body, header_body, no_block, supply_body,
  bucket_body, heartbeat_body, score_body, scores_body, tx_body, txs_body, leader_body, disabled,
  validators_body, seeded_body, kept_body, snapshot_body, imported_body, applied_body, jailed_body,
  address_body, done,
}

abbrev hex_quantity : Text → RpcResult
hex_quantity digits = quantity (codes "0x" ++ digits)

abbrev decimal : Parsed → Result ℕ
decimal (value n) = ok n
decimal bad_syntax = err bad_number
decimal out_of_range = err bad_number

-- The tag without its prefix: hexadecimal first, and decimal if that fails.
abbrev number_of : Parsed → Text → Result ℕ
number_of (value n) tag = ok n
number_of bad_syntax tag = decimal (parse_uint 10 tag)
number_of out_of_range tag = decimal (parse_uint 10 tag)

unfoldable pub parse_block_tag : Text → Store → Result ℕ
parse_block_tag text s =
    let tag = trim_space (to_lower text) in
    if text_eq tag (codes "latest") || is_empty tag
    then ok (get_latest_height s)
    else number_of (parse_uint 16 (trim_0x tag)) (trim_0x tag)

-- `json.Unmarshal(params, &p); err != nil || len(p) < 1`.
abbrev first_param : Option (List Text) → Result Text
first_param none = err bad_params
first_param (some []) = err bad_params
first_param (some (p ∷ ps)) = ok p

unfoldable pub get_block_by_number : Text → Store → Result RpcResult
unfolding parse_block_tag
get_block_by_number tag s = do
  height ← parse_block_tag tag s
  ok (
      if height == 0
      then null
      else (elim (get_block height s) [ ok h ↦ block_result h | err e ↦ null ]))

abbrev calls : RpcRequest → Text → Bool
calls req method = text_eq req.method method

module _ (lib : Crypto) where
  unfoldable pub dispatch_rpc : RpcRequest → Store → Result RpcResult
  unfolding get_block_by_number
  dispatch_rpc req s =
      let block = first_param req.values >>= λ tag. get_block_by_number tag s in
      let transaction = first_param req.strings >>= λ hash.
      ok (elim (get_transaction hash s) [ ok st ↦ tx_result st | err e ↦ null ]) in
      let account = first_param req.strings >>= λ addr. ok (get_account addr s) in
      let proof =
        first_param req.strings >>= λ addr. ok (proof_result (prove_account lib addr s)) in
      if calls req (codes "eth_chainId")
      then ok (hex_quantity (show_hex64 s.numeric_chain_id))
      else if calls req (codes "net_version")
      then ok (quantity (show_int64 s.numeric_chain_id))
      else if calls req (codes "eth_gasPrice")
      then ok (quantity (codes "0x0"))
      else if calls req (codes "eth_blockNumber")
      then ok (hex_quantity (show_hex (get_latest_height s)))
      else if calls req (codes "eth_getBalance")
      then (account >>= λ acc. ok (hex_quantity (show_hex64 acc.balance)))
      else if calls req (codes "eth_getBlockByNumber")
      then block
      else if calls req (codes "eth_getTransactionByHash")
      then transaction
      else if calls req (codes "eth_getTransactionCount")
      then (account >>= λ acc. ok (hex_quantity (show_hex acc.nonce)))
      else if calls req (codes "east_getAccount")
      then (account >>= λ acc. ok (account_result acc))
      else if calls req (codes "east_getProof")
      then proof
      else err method_not_found

  -- `rpc_error`'s code is the negative of -32700 and -32000.
  unfoldable pub handle_json_rpc : Option RpcRequest → Store → Response
  unfolding dispatch_rpc
  handle_json_rpc none s = answer (rpc_body (rpc_error 32700 bad_json))
  handle_json_rpc (some req) s = elim (dispatch_rpc req s) [
    | ok result ↦ answer (rpc_body result)
    | err e ↦ answer (rpc_body (rpc_error 32000 e))
  ]
