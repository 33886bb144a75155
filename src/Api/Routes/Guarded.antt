-- ===== src/Api/Routes/Guarded.antt =====
-- internal/api/server.go: what a request without the secret leaves as it is.
use east_validator.Prelude.{
  ℕ, ◌≡◌, refl, inl, inr, Bool, true, false, Option, none, some, if◌then◌else◌,
}
use east_validator.Prelude.Text.{codes, Text, text_eq}
use east_validator.Crypto.{build_heartbeat_message, build_validator_register_message, Crypto}
use east_validator.Errors.{Result-cases, Result, ok, err}
use east_validator.State.{Store, HeartbeatRecord}
use east_validator.Prelude.Maps.{text_key}
use east_validator.Prelude.Int.{inc64}
use east_validator.State.Blocks.{get_latest_height}
use east_validator.State.Uptime.{tier_light, tier_full, record_heartbeat}
use east_validator.Consensus.Leader.{is_eligible, add_validator, LeaderSchedule}
use east_validator.Api.Server.{
  Server, World, HeartbeatRequest, ValidatorRegisterRequest, Route, Response, at_rpc, at_account,
  at_account_proof, at_block, at_bucket, at_uptime, at_latest_block, at_supply, at_heartbeat,
  at_epoch_scores, at_submit_tx, at_mempool_txs, at_propose, at_leader, at_get_validators,
  at_register, at_set_validators, at_seed, at_prune, at_backup, at_list_jailed, at_get_snapshot,
  at_post_snapshot, at_restore_accounts, at_unjail,
}
use east_validator.Api.Reads.{handle_leader}
use east_validator.Api.Writes.{
  signed_refusal, beaten, record_with, heartbeat_past, handle_heartbeat, register_with,
  register_past, register_in, handle_register_validator, handle_set_validators, handle_submit_tx,
}
use east_validator.Api.Admin.{
  handle_get_snapshot, handle_propose, handle_seed, handle_prune, handle_backup,
  handle_post_snapshot, handle_restore_accounts, handle_unjail,
}
use east_validator.Api.Routes.{is_authorized, auth, serve}
use east_validator.Consensus.Leader.Ledger.{
  SameLedger, same, stats-SameLedger, record_heartbeat-SameLedger,
}

-- What a request without the secret cannot reach.
pub record Untouched (before after : Server) : Type 0 where
  pub ledger : SameLedger before.store after.store
  pub pool : after.pool ≡ before.pool
  pub written : after.written ≡ before.written
  pub cfg : after.cfg ≡ before.cfg

abbrev untouched : (s : Server) → Untouched s s
untouched s = record { ledger = same s.store; pool = refl; written = refl; cfg = refl }

beaten-Untouched :
    (req : HeartbeatRequest) (s : Server) (r : Store × HeartbeatRecord)
    → SameLedger s.store r.0
    → Untouched s (beaten req s r).0
beaten-Untouched req s r ledger = record {
  ledger = ledger;
  pool = refl;
  written = refl;
  cfg = refl;
}

record_with-Untouched :
    (now : ℕ) (address node_id tier : Text) (seconds : ℕ) (req : HeartbeatRequest) (s : Server)
    → Untouched s (record_with req (record_heartbeat now address node_id tier seconds s.store) s).0
record_with-Untouched now address node_id tier seconds req s =
    elim (Result-cases (record_heartbeat now address node_id tier seconds s.store)) [
      | inl (r, e) ↦ rw e (
          beaten-Untouched req s r
            (record_heartbeat-SameLedger now address node_id tier seconds s.store r e))
      | inr (refused, e) ↦ rw e (untouched s)
    ]

heartbeat_past-Untouched :
    (w : World) (o : Option Response) (req : HeartbeatRequest) (s : Server)
    → Untouched s (heartbeat_past w o req s).0
heartbeat_past-Untouched w (some refused) req s = untouched s
heartbeat_past-Untouched w none req s =
    record_with-Untouched w.now req.address req.node_id
      (if text_eq req.tier (codes "full") then tier_full else tier_light) s.cfg.epoch_seconds req s

handle_heartbeat-Untouched :
    (lib : Crypto) (w : World) (body : Option HeartbeatRequest) (s : Server)
    → Untouched s (handle_heartbeat lib w body s).0
unfolding handle_heartbeat
handle_heartbeat-Untouched lib w none s = untouched s
handle_heartbeat-Untouched lib w (some req) s =
    heartbeat_past-Untouched w
      (signed_refusal lib w req.address req.signature req.unix_ms
        (build_heartbeat_message req.address req.node_id req.unix_ms))
      req s

schedule_only :
    {l : Option LeaderSchedule} {after : Store} (s : Server)
    → SameLedger s.store after
    → Untouched s (record s { leader = l; store = after })
schedule_only s ledger = record { ledger = ledger; pool = refl; written = refl; cfg = refl }

register_with-Untouched :
    (w : World) (req : ValidatorRegisterRequest) (l : LeaderSchedule) (r : Result Bool) (s : Server)
    → Untouched s (register_with w req l r s).0
register_with-Untouched w req l (err e) s = untouched s
register_with-Untouched w req l (ok false) s = untouched s
register_with-Untouched w req l (ok true) s = schedule_only s (
    stats-SameLedger w.now (inc64 (get_latest_height s.store)) (add_validator req.address l)
      s.store)

register_past-Untouched :
    (w : World) (o : Option Response) (req : ValidatorRegisterRequest) (l : LeaderSchedule)
    (s : Server)
    → Untouched s (register_past w o req l s).0
register_past-Untouched w (some refused) req l s = untouched s
register_past-Untouched w none req l s =
    register_with-Untouched w req l (is_eligible req.address l s.store) s

register_in-Untouched :
    (lib : Crypto) (w : World) (body : Option ValidatorRegisterRequest) (o : Option LeaderSchedule)
    (s : Server)
    → Untouched s (register_in lib w body o s).0
register_in-Untouched lib w body none s = untouched s
register_in-Untouched lib w none (some l) s = untouched s
register_in-Untouched lib w (some req) (some l) s =
    register_past-Untouched w
      (signed_refusal lib w req.address req.signature req.unix_ms
        (build_validator_register_message req.address req.unix_ms))
      req l s

handle_leader-SameLedger :
    (now : ℕ) (o : Option LeaderSchedule) (s : Store) → SameLedger s (handle_leader now o s).0
unfolding handle_leader
handle_leader-SameLedger now none s = same s
handle_leader-SameLedger now (some l) s = stats-SameLedger now (inc64 (get_latest_height s)) l s

auth-Untouched :
    (secret : Text) (s : Server) (handled : Server × Response)
    → is_authorized secret s ≡ false
    → Untouched s (auth secret s handled).0
auth-Untouched secret s handled refused = rw refused (untouched s)

-- A request that is not authorized, on any of the routes, leaves the accounts, the supply, the
-- blocks and their transactions, the tip, the saved validator set, the pool, the backups and the
-- configuration as they are.
pub serve-Untouched :
    (lib : Crypto) (w : World) (secret : Text) (route : Route) (s : Server)
    → is_authorized secret s ≡ false
    → Untouched s (serve lib w (record { secret = secret; route = route }) s).0
unfolding serve handle_register_validator
serve-Untouched lib w secret route s refused =
    let kept = auth-Untouched secret s in
    elim route
      as (λ (r : Route). Untouched s (serve lib w (record { secret = secret; route = r }) s).0) [
        | at_rpc body ↦ untouched s
        | at_account a ↦ untouched s
        | at_account_proof a ↦ untouched s
        | at_block a ↦ untouched s
        | at_bucket a ↦ untouched s
        | at_uptime a ↦ untouched s
        | at_latest_block ↦ untouched s
        | at_supply ↦ untouched s
        | at_heartbeat body ↦ handle_heartbeat-Untouched lib w body s
        | at_epoch_scores a b ↦ untouched s
        | at_submit_tx body ↦ kept (handle_submit_tx lib w body s) refused
        | at_mempool_txs a ↦ untouched s
        | at_propose ↦ kept (handle_propose s) refused
        | at_leader ↦ record {
          ledger = handle_leader-SameLedger w.now s.leader s.store;
          pool = refl;
          written = refl;
          cfg = refl;
        }
        | at_get_validators ↦ untouched s
        | at_register body ↦ register_in-Untouched lib w body s.leader s
        | at_set_validators body ↦ kept (handle_set_validators w body s) refused
        | at_seed body ↦ kept (handle_seed body s) refused
        | at_prune ↦ kept (handle_prune s) refused
        | at_backup ↦ kept (handle_backup w s) refused
        | at_list_jailed ↦ untouched s
        | at_get_snapshot a ↦ kept (handle_get_snapshot w a s) refused
        | at_post_snapshot body force ↦ kept (handle_post_snapshot w body force s) refused
        | at_restore_accounts body ↦ kept (handle_restore_accounts w body s) refused
        | at_unjail body ↦ kept (handle_unjail body s) refused
      ]
