-- ===== src/Api/Admin.antt =====
-- internal/api/server.go: the handlers of the administrator, and the one that is disabled.
use east_validator.Prelude.{Bool, ◌||◌, [], ◌∷◌, ◌++◌, Option, none, some, if◌then◌else◌}
use east_validator.Prelude.Text.{Text, codes, text_eq, to_lower, trim_space, is_empty}
use east_validator.Errors.{ok, err, not_found}
use east_validator.State.Blocks.{prune_old_blocks}
use east_validator.State.Seed.{seed_account}
use east_validator.State.Roster.{unjail_validator}
use east_validator.State.Backup.{
  export_snapshot, BackupSnapshot, export_backup, import_full_snapshot, restore_accounts,
}
use east_validator.Api.Reads.{positive_query_or}
use east_validator.Api.Server.{
  snapshot_body, refuse, Server, World, SeedRequest, RestoreRequest, Response, answer, http_error,
  seeded_body, kept_body, imported_body, applied_body, address_body, done,
}

unfoldable pub handle_propose : Server → Server × Response
handle_propose s = (
  s,
  http_error
      (codes
        "consensus/propose is disabled — block proposals are no longer accepted; this validator produces and seals blocks on its own schedule")
      410,
)

abbrev mode_of : SeedRequest → Text
mode_of req = if is_empty (trim_space req.mode) then codes "overwrite" else trim_space req.mode

unfoldable pub handle_seed : Option SeedRequest → Server → Server × Response
handle_seed none s = (s, http_error (codes "invalid json") 400)
handle_seed (some req) s =
    if is_empty req.address then (s, http_error (codes "address required") 400) else (
      record s {
        store =
            seed_account req.address req.balance req.staked req.pending_unstake (mode_of req)
              s.store;
      },
      answer (
          seeded_body (to_lower req.address) (mode_of req) (record {
            balance = req.balance;
            staked = req.staked;
            pending_unstake = req.pending_unstake;
            nonce = 0;
          })),
    )

unfoldable pub handle_prune : Server → Server × Response
handle_prune s = (
  record s { store = prune_old_blocks s.cfg.keep_recent_blocks s.store },
  answer (kept_body s.cfg.keep_recent_blocks),
)

unfoldable pub handle_unjail : Option Text → Server → Server × Response
handle_unjail none s = (s, http_error (codes "address required") 400)
handle_unjail (some address) s =
    if is_empty address
    then (s, http_error (codes "address required") 400)
    else (record s { store = unjail_validator address s.store }, answer (address_body address))

module _ (w : World) where
  -- ExportSnapshot reads back the file that ExportBackup writes.
  unfoldable pub handle_get_snapshot : Text → Server → Server × Response
  handle_get_snapshot max_blocks s =
      let snap = export_snapshot w.now (positive_query_or 2000 max_blocks) s.store in
      (record s { written = s.written ++ snap ∷ [] }, answer (snapshot_body snap))

  unfoldable pub handle_backup : Server → Server × Response
  handle_backup s =
      (record s { written = s.written ++ export_backup w.now 500 s.store ∷ [] }, answer done)

  unfoldable pub handle_post_snapshot : Option BackupSnapshot → Text → Server → Server × Response
  handle_post_snapshot none force s = (s, http_error (codes "invalid snapshot json") 400)
  handle_post_snapshot (some snap) force s =
      let forced = text_eq force (codes "true") || text_eq force (codes "1") in
      let (after, imported) = import_full_snapshot w.now (some snap) forced s.store in
      elim imported [
        | ok (accounts, blocks) ↦
            (record s { store = after }, answer (imported_body accounts blocks snap.latest_height))
        | err e ↦ refuse (record s { store = after }) e 400
      ]

  abbrev restore_file : Bool → Option BackupSnapshot → Server → Server × Response
  restore_file force none s = refuse s not_found 500
  restore_file force (some snap) s =
      let (after, applied) = restore_accounts w.now force snap s.store in
      (record s { store = after }, answer (applied_body applied))

  unfoldable pub handle_restore_accounts : Option RestoreRequest → Server → Server × Response
  handle_restore_accounts none s = (s, http_error (codes "path required") 400)
  handle_restore_accounts (some req) s =
      if is_empty req.path
      then (s, http_error (codes "path required") 400)
      else restore_file req.force (w.files req.path) s
