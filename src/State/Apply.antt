-- ===== src/State/Apply.antt =====
-- state.go: `ApplyTx`, the transition of the account state by one transaction.
pub mod Accounting
pub mod Nonces
pub mod Caps
use east_validator.Prelude.{
  ℕ, ◌≡◌, refl, Bool, true, false, not, ◌&&◌, Option, none, some, arith, ltb, leb, ◌==◌,
  if◌then◌else◌,
}
use east_validator.Prelude.Int.{lt64, ◌+64◌, ◌-64◌, ◌*64◌, div64}
use east_validator.Prelude.Text.{Text}
use east_validator.Tx.{
  Transaction, TxType, transfer, request_unstake, claim_unstake, stake, claim_mining, unknown,
  subunits_per_east, parse_claim_mining_payload,
}
use east_validator.Errors.{
  Error, Result, ok, err, ◌>>=◌, ◌>>◌, guard, invalid_nonce, insufficient_balance,
  insufficient_staked, insufficient_pending, credit_overflow, unknown_tx_type,
}
use east_validator.State.{Account, Store}
use east_validator.State.Accounts.{get_account_txn, set_account_txn, mint_from_bucket_txn}

-- `credit` in the claim_mining case, with its overflow check.
unfoldable pub claim_credit : ℕ → Result ℕ
claim_credit amount =
    let credit = amount *64 subunits_per_east in
    do
      guard (not (lt64 0 amount && not (div64 credit amount == subunits_per_east))) credit_overflow
      ok credit

-- What each case makes of the sender's account, and a transfer of the recipient's.
abbrev pub paid_by : Transaction → Account → Account
paid_by t acc = record acc { balance = acc.balance -64 t.amount; nonce = t.nonce }

abbrev pub credited_by : ℕ → Account → Account
credited_by amount acc = record acc { balance = acc.balance +64 amount }

abbrev pub staked_by : Transaction → Account → Account
staked_by t acc = record acc {
  balance = acc.balance -64 t.amount;
  staked = acc.staked +64 t.amount;
  nonce = t.nonce;
}

abbrev pub requested_by : Transaction → Account → Account
requested_by t acc = record acc {
  staked = acc.staked -64 t.amount;
  pending_unstake = acc.pending_unstake +64 t.amount;
  nonce = t.nonce;
}

abbrev pub returned_by : Transaction → Account → Account
returned_by t acc = record acc {
  pending_unstake = acc.pending_unstake -64 t.amount;
  balance = acc.balance +64 t.amount;
  nonce = t.nonce;
}

abbrev pub claimed_by : ℕ → ℕ → Account → Account
claimed_by nonce credit acc = record acc { balance = acc.balance +64 credit; nonce = nonce }

-- The `switch` of ApplyTx; `acc` is the sender's account as it was read.
unfoldable pub apply_type : TxType → Transaction → Account → Store → Result Store
apply_type transfer t acc s = do
  guard (not (lt64 acc.balance t.amount)) insufficient_balance
  let target = get_account_txn t.to s
  ok (set_account_txn t.to (credited_by t.amount target) (set_account_txn t.from (paid_by t acc) s))
apply_type stake t acc s = do
  guard (not (lt64 acc.balance t.amount)) insufficient_balance
  ok (set_account_txn t.from (staked_by t acc) s)
apply_type request_unstake t acc s = do
  guard (not (lt64 acc.staked t.amount)) insufficient_staked
  ok (set_account_txn t.from (requested_by t acc) s)
apply_type claim_unstake t acc s = do
  guard (not (lt64 acc.pending_unstake t.amount)) insufficient_pending
  ok (set_account_txn t.from (returned_by t acc) s)
apply_type claim_mining t acc s = do
  p ← parse_claim_mining_payload t.payload
  minted ← mint_from_bucket_txn p.bucket t.amount s
  credit ← claim_credit t.amount
  ok (set_account_txn t.from (claimed_by t.nonce credit acc) minted)
apply_type (unknown name) t acc s = err unknown_tx_type

unfoldable pub apply_tx : Transaction → Store → Result Store
apply_tx t s = do
  let acc = get_account_txn t.from s
  guard (not (ltb 0 t.nonce && leb t.nonce acc.nonce)) invalid_nonce
  apply_type t.type t acc s
