-- ===== src/State/Seed.antt =====
-- state.go: `SeedAccount`, the migration of balances by an administrator.
pub mod Accounts
use east_validator.Prelude.{ℕ, ◌||◌, if◌then◌else◌}
use east_validator.Prelude.Int.{lt64}
use east_validator.Prelude.Text.{Text, codes, text_eq, to_lower, trim_space}
use east_validator.State.{Account, Store}
use east_validator.State.Accounts.{get_account_txn, set_account_txn}

pub data SeedMode : Type 0 where
  balance_only merge_max overwrite : SeedMode

unfoldable pub seed_mode : Text → SeedMode
seed_mode mode =
    let m = to_lower (trim_space mode) in
    if text_eq m (codes "balance_only") || text_eq m (codes "balance")
    then balance_only
    else if text_eq m (codes "merge_max") || text_eq m (codes "merge")
    then merge_max
    else overwrite

abbrev pub larger : ℕ → ℕ → ℕ
larger new old = if lt64 old new then new else old

unfoldable pub seeded : SeedMode → ℕ → ℕ → ℕ → Account → Account
seeded balance_only balance staked pending acc = record acc { balance = balance }
seeded merge_max balance staked pending acc = record acc {
  balance = larger balance acc.balance;
  staked = larger staked acc.staked;
  pending_unstake = larger pending acc.pending_unstake;
}
seeded overwrite balance staked pending acc = record acc {
  balance = balance;
  staked = staked;
  pending_unstake = pending;
}

unfoldable pub seed_account : Text → ℕ → ℕ → ℕ → Text → Store → Store
unfolding seeded seed_mode
seed_account addr balance staked pending mode s =
    set_account_txn addr (seeded (seed_mode mode) balance staked pending (get_account_txn addr s)) s

unfoldable pub seed_balance : Text → ℕ → Store → Store
unfolding seed_account
seed_balance addr balance s = seed_account addr balance 0 0 (codes "balance_only") s
