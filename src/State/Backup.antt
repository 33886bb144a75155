-- ===== src/State/Backup.antt =====
-- internal/state/backup.go: snapshots of the state, their export and their import. The file that a
-- snapshot is written to and read from, and its JSON, stand for the snapshot itself. A map's
-- iteration order is the order of the list; `now` is the wall clock.
pub mod Import
pub mod RoundTrip
use east_validator.Prelude.{
  ℕ, zero, suc, ◌+◌, ◌-◌, Bool, true, false, not, ◌&&◌, ◌||◌, List, [], ◌∷◌, Option, none, some,
  ltb, ◌==◌, if◌then◌else◌,
}
use east_validator.Prelude.Int.{lt64}
use east_validator.Prelude.Text.{Text, is_empty}
use east_validator.Errors.{Result, ok, err, nil_snapshot, chain_id_mismatch}
use east_validator.Genesis.{Bucket}
use east_validator.State.{Account, BlockHeader, ValidatorSetRecord, JailRecord, Store}
use east_validator.State.Accounts.{get_account, set_account_txn}
use east_validator.State.Blocks.{get_block, get_latest_height, save_block}
use east_validator.State.Roster.{get_validator_set, save_validator_set, list_jailed}

-- `CreatedAt` is left out: nothing reads it.
pub record BackupSnapshot : Type 0 where
  pub version : ℕ
  pub latest_height : ℕ
  pub numeric_chain_id : ℕ
  pub total_max_supply : ℕ
  pub validator_set : Option ValidatorSetRecord
  pub buckets : List Bucket
  pub accounts : List (Text × Account)
  pub recent_blocks : List BlockHeader
  pub jailed : List JailRecord

-- `len(key) > 4`: the entries whose address is not empty.
unfoldable pub named_accounts : List (Text × Account) → List (Text × Account)
named_accounts [] = []
named_accounts ((addr, acc) ∷ m) =
    let rest = named_accounts m in if is_empty addr then rest else (addr, acc) ∷ rest

named_buckets : List (Text × Bucket) → List Bucket
named_buckets [] = []
named_buckets ((name, b) ∷ m) =
    let rest = named_buckets m in if is_empty name then rest else b ∷ rest

-- The loop over `count` heights: a block that is missing is passed over.
unfoldable pub blocks_from : ℕ → ℕ → Store → List BlockHeader
blocks_from zero height s = []
blocks_from (suc count) height s =
    let rest = blocks_from count (suc height) s in
    elim (get_block height s) [ ok b ↦ b ∷ rest | err e ↦ rest ]

abbrev pub first_height : ℕ → ℕ → ℕ
first_height max_blocks latest = if ltb max_blocks latest then latest - max_blocks + 1 else 1

-- `max_blocks` is an int.
unfoldable pub export_backup : ℕ → ℕ → Store → BackupSnapshot
unfolding blocks_from named_accounts named_buckets
export_backup now max_blocks s =
    let latest = get_latest_height s in
    let start = first_height (if lt64 0 max_blocks then max_blocks else 500) latest in
    record {
      version = 1;
      latest_height = latest;
      numeric_chain_id = s.numeric_chain_id;
      total_max_supply = s.total_max_supply;
      validator_set = get_validator_set s;
      buckets = named_buckets s.buckets;
      accounts = named_accounts s.accounts;
      recent_blocks = blocks_from (latest + 1 - start) start s;
      jailed = list_jailed now 200 s;
    }

unfoldable pub export_snapshot : ℕ → ℕ → Store → BackupSnapshot
export_snapshot now max_blocks s = export_backup now max_blocks s

-- `cur.Balance != 0 || cur.Staked != 0 || cur.Nonce != 0`.
abbrev pub is_used : Account → Bool
is_used acc = not (acc.balance == 0) || (not (acc.staked == 0) || not (acc.nonce == 0))

-- The loop over the accounts, and how many it applies.
unfoldable pub restore_all : Bool → List (Text × Account) → Store → Store × ℕ
restore_all force [] s = (s, 0)
restore_all force ((addr, acc) ∷ m) s =
    let skipped = restore_all force m s in
    let (after, applied) = restore_all force m (set_account_txn addr acc s) in
    if not force && is_used (get_account addr s) then skipped else (after, suc applied)

abbrev pub restore_members : ℕ → List Text → Store → Store
restore_members now [] s = s
restore_members now (a ∷ more) s = save_validator_set now (a ∷ more) s

abbrev pub restore_set : ℕ → Option ValidatorSetRecord → Store → Store
restore_set now none s = s
restore_set now (some rec) s = restore_members now rec.addresses s

-- RestoreAccountsFromSnapshotBytes; RestoreAccountsFromSnapshot, which sets the balance first and
-- then the whole account, leaves the same.
unfoldable pub restore_accounts : ℕ → Bool → BackupSnapshot → Store → Store × ℕ
unfolding restore_all
restore_accounts now force snap s =
    let (after, applied) = restore_all force snap.accounts s in
    (restore_set now snap.validator_set after, applied)

unfoldable pub save_all : List BlockHeader → Store → Store × ℕ
save_all [] s = (s, 0)
save_all (h ∷ hs) s = let (after, saved) = save_all hs (save_block h s) in (after, suc saved)

abbrev pub set_tip : ℕ → Store → Store
set_tip height s = if ltb 0 height then record s { latest_height = some height } else s

unfoldable pub import_full_snapshot :
    ℕ → Option BackupSnapshot → Bool → Store → Store × Result (ℕ × ℕ)
unfolding restore_accounts save_all
import_full_snapshot now none force s = (s, err nil_snapshot)
import_full_snapshot now (some snap) force s =
    let (restored, applied) = restore_accounts now force snap s in
    let (after, saved) = save_all snap.recent_blocks restored in
    if not (snap.numeric_chain_id == 0)
      && (not (s.numeric_chain_id == 0) && not (snap.numeric_chain_id == s.numeric_chain_id))
    then (s, err chain_id_mismatch)
    else (set_tip snap.latest_height after, ok (applied, saved))
