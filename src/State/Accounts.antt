-- ===== src/State/Accounts.antt =====
-- state.go: reading and writing accounts and supply buckets, and the genesis state.
pub mod Lookup
pub mod Holdings
use east_validator.Prelude.{
  ℕ, ◌≡◌, refl, Bool, true, false, not, List, [], ◌∷◌, Option, none, some, arith, if◌then◌else◌,
}
use east_validator.Prelude.Int.{lt64, le64, ◌+64◌, ◌-64◌}
use east_validator.Prelude.Text.{Text, text_eq}
use east_validator.Prelude.Maps.{lookup, insert, text_key, nat_eq}
use east_validator.Genesis.{Genesis, Bucket, AccountSeed, validate}
use east_validator.Errors.{
  Error, Result, ok, err, ◌>>=◌, ◌>>◌, guard, or_fail, mint_not_positive, bucket_not_found,
  over_cap, not_found,
}
use east_validator.State.{Account, zero_account, Store, normalize_addr}

abbrev pub get_or {ℓ} : {A : Type ℓ} → Option A → A → A
get_or none d = d
get_or (some a) d = a

-- `accountKey`, less its prefix.
abbrev account_key : Text → Text
account_key addr = normalize_addr addr

unfoldable pub get_account : Text → Store → Account
get_account addr s = get_or (lookup (account_key addr) s.accounts) zero_account

-- A legacy key may hold the address as it was written.
abbrev legacy : Text → Text → Store → Option Account
legacy norm addr s = if not (text_eq norm addr) then lookup addr s.accounts else none

abbrev first_of_two : Option Account → Option Account → Option Account
first_of_two none b = b
first_of_two (some a) b = some a

unfoldable pub get_account_txn : Text → Store → Account
get_account_txn addr s =
    let norm = normalize_addr addr in
    get_or (first_of_two (lookup (account_key norm) s.accounts) (legacy norm addr s)) zero_account

unfoldable pub set_account_txn : Text → Account → Store → Store
set_account_txn addr acc s = record s { accounts = insert (account_key addr) acc s.accounts }

unfoldable pub get_bucket : Text → Store → Result Bucket
get_bucket name s = or_fail (lookup name s.buckets) not_found

unfoldable pub mint_from_bucket_txn : Text → ℕ → Store → Result Store
mint_from_bucket_txn name amount s = do
  guard (lt64 0 amount) mint_not_positive
  b ← or_fail (lookup name s.buckets) bucket_not_found
  guard (not (lt64 b.cap (b.minted +64 amount))) over_cap
  ok (record s { buckets = insert name (record b { minted = b.minted +64 amount }) s.buckets })

unfoldable pub mint_from_bucket : Text → ℕ → Store → Result Store
unfolding mint_from_bucket_txn
mint_from_bucket name amount s = mint_from_bucket_txn name amount s

unfoldable pub bucket_remaining : Text → Store → Result ℕ
unfolding get_bucket
bucket_remaining name s = do
  b ← get_bucket name s
  let rem = b.cap -64 b.minted
  ok (if lt64 rem 0 then 0 else rem)

bucket_values : List (Text × Bucket) → List Bucket
bucket_values [] = []
bucket_values ((name, b) ∷ m) = b ∷ bucket_values m

unfoldable pub list_buckets : Store → List Bucket
unfolding bucket_values
list_buckets s = bucket_values s.buckets

set_buckets : List Bucket → Store → Store
set_buckets [] s = s
set_buckets (b ∷ bs) s = set_buckets bs (record s { buckets = insert b.name b s.buckets })

set_seeds : List AccountSeed → Store → Store
set_seeds [] s = s
set_seeds (a ∷ rest) s =
    set_seeds rest
      (set_account_txn a.address (record zero_account { balance = a.balance; staked = a.staked }) s)

set_config : Genesis → Store → Store
set_config g s = record s {
  total_max_supply = g.max_supply;
  min_validator_stake = g.min_validator_stake;
  chain_signing_address = g.chain_signing_address;
  numeric_chain_id = g.numeric_chain_id;
}

-- `InitGenesis`: a store that has its genesis takes the configuration only.
unfoldable pub init_genesis : Genesis → Store → Result Store
unfolding set_buckets set_seeds set_config
init_genesis g s = do
  checked ← validate g
  let seeded = set_seeds checked.accounts (set_buckets checked.buckets s)
  ok (
      if s.genesis_applied
      then set_config checked s
      else set_config checked (record seeded { genesis_applied = true; latest_height = some 0 }))
