-- ===== src/Api/Reads.antt =====
-- internal/api/server.go: the handlers that read. The ones whose answer is statistics only (health,
-- metrics, stats, the mempool's and the BFT engine's status) are left out.
use east_validator.Prelude.{ℕ, ◌&&◌, [], Option, none, some, ◌==◌, if◌then◌else◌}
use east_validator.Prelude.Int.{lt64, inc64}
use east_validator.Prelude.Text.{Text, codes, is_empty}
use east_validator.Prelude.Parse.{Parsed, value, bad_syntax, out_of_range, parse_uint, parse_int}
use east_validator.Crypto.{Crypto}
use east_validator.Errors.{ok, err}
use east_validator.State.{Store}
use east_validator.State.Accounts.{get_account, get_bucket, list_buckets}
use east_validator.State.Blocks.{get_block, get_latest_height}
use east_validator.State.Roster.{list_jailed}
use east_validator.State.Uptime.{get_uptime_score, list_epoch_scores}
use east_validator.Merkle.{prove_account}
use east_validator.Mempool.{Mempool, peek}
use east_validator.Consensus.Leader.{LeaderSchedule, stats}
use east_validator.Api.Server.{
  Response, answer, http_error, http_error_of, account_body, proof_body, header_body, no_block,
  supply_body, bucket_body, score_body, scores_body, txs_body, leader_body, disabled,
  validators_body, jailed_body,
}

unfoldable pub handle_get_account : Text → Store → Response
handle_get_account addr s = answer (account_body (get_account addr s))

unfoldable pub handle_account_proof : Crypto → Text → Store → Response
handle_account_proof lib addr s = answer (proof_body (prove_account lib addr s))

unfoldable pub handle_latest_block : Store → Response
handle_latest_block s =
    if get_latest_height s == 0
    then answer no_block
    else (elim (get_block (get_latest_height s) s) [
      | ok h ↦ answer (header_body h)
      | err e ↦ http_error_of e 404
    ])

abbrev block_at : Parsed → Store → Response
block_at (value height) s = elim (get_block height s) [
  | ok h ↦ answer (header_body h)
  | err e ↦ http_error (codes "block not found") 404
]
block_at bad_syntax s = http_error (codes "invalid height") 400
block_at out_of_range s = http_error (codes "invalid height") 400

unfoldable pub handle_get_block : Text → Store → Response
handle_get_block height s = block_at (parse_uint 10 height) s

unfoldable pub handle_supply : Store → Response
handle_supply s = answer (supply_body s.total_max_supply (list_buckets s))

unfoldable pub handle_bucket : Text → Store → Response
handle_bucket name s = elim (get_bucket name s) [
  | ok b ↦ answer (bucket_body b)
  | err e ↦ http_error (codes "bucket not found") 404
]

unfoldable pub handle_uptime : Text → ℕ → Store → Response
handle_uptime addr epoch_seconds s = elim (get_uptime_score addr epoch_seconds s) [
  | ok score ↦ answer (score_body score)
  | err e ↦ http_error (codes "not found") 404
]

-- The `limit` and `max_blocks` queries: a number if there is one.
abbrev query_or : ℕ → Text → ℕ
query_or default q =
    let (n, valid) = parse_int q in if is_empty q then default else if valid then n else default

abbrev pub positive_query_or : ℕ → Text → ℕ
positive_query_or default q =
    let (n, valid) = parse_int q in
    if is_empty q then default else if valid && lt64 0 n then n else default

unfoldable pub handle_epoch_scores : Text → Text → Store → Response
handle_epoch_scores epoch limit s =
    let (id, valid) = parse_int epoch in
    if valid
    then answer (scores_body id (list_epoch_scores id (query_or 100 limit) s))
    else http_error (codes "invalid epoch") 400

abbrev peek_in : ℕ → Option Mempool → Response
peek_in limit none = answer (txs_body [])
peek_in limit (some pool) = answer (txs_body (peek limit pool))

unfoldable pub handle_mempool_txs : Text → Option Mempool → Response
handle_mempool_txs limit pool = peek_in (positive_query_or 50 limit) pool

-- Reading the schedule drops expired jail records, so the store is given back.
unfoldable pub handle_leader : ℕ → Option LeaderSchedule → Store → Store × Response
handle_leader now none s = (s, answer disabled)
handle_leader now (some l) s =
    let (after, shown) = stats now (inc64 (get_latest_height s)) l s in
    (after, answer (leader_body shown))

unfoldable pub handle_get_validators : Option LeaderSchedule → Response
handle_get_validators none = answer (validators_body [])
handle_get_validators (some l) = answer (validators_body l.validators)

unfoldable pub handle_list_jailed : ℕ → Store → Response
handle_list_jailed now s = answer (jailed_body (list_jailed now 200 s))
