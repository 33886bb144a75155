-- ===== src/Genesis.antt =====
-- internal/genesis/genesis.go: the supply buckets and the checks on a genesis file. All amounts
-- are int64 patterns.
pub mod Checked
use east_validator.Prelude.{ℕ, ◌≤◌, ◌<◌, not, ◌||◌, List, [], ◌∷◌, ◌==◌, if◌then◌else◌}
use east_validator.Prelude.Int.{lt64, ◌+64◌, two62}
use east_validator.Prelude.Text.{Text, codes}
use east_validator.Errors.{
  Result, ok, ◌>>=◌, ◌>>◌, guard, wrong_chain_id, negative_bucket, minted_over_cap, caps_sum,
  wrong_max_supply, stake_order,
}

abbrev pub total_max_supply : ℕ
total_max_supply = 1000000000

abbrev pub east_chain_id : ℕ
east_chain_id = 172026

pub record Bucket : Type 0 where
  pub name : Text
  pub cap : ℕ
  pub minted : ℕ

pub record AccountSeed : Type 0 where
  pub address : Text
  pub balance : ℕ
  pub staked : ℕ

pub record Genesis : Type 0 where
  pub chain_id : Text
  pub numeric_chain_id : ℕ
  pub genesis_time : ℕ
  pub max_supply : ℕ
  pub buckets : List Bucket
  pub accounts : List AccountSeed
  pub min_validator_stake : ℕ
  pub min_fullnode_stake : ℕ
  pub chain_signing_address : Text

abbrev fresh_bucket : Text → ℕ → Bucket
fresh_bucket name cap = record { name = name; cap = cap; minted = 0 }

abbrev pub default_buckets : List Bucket
default_buckets =
    fresh_bucket (codes "mining") 300000000
    ∷ fresh_bucket (codes "staking") 80000000
    ∷ fresh_bucket (codes "validator") 80000000
    ∷ fresh_bucket (codes "campaign") 40000000
    ∷ fresh_bucket (codes "liquidity") 150000000
    ∷ fresh_bucket (codes "treasury") 100000000
    ∷ fresh_bucket (codes "emergency") 70000000
    ∷ fresh_bucket (codes "marketing") 70000000
    ∷ fresh_bucket (codes "team") 60000000
    ∷ fresh_bucket (codes "founder") 50000000
    ∷ []

-- `now` is the wall clock in milliseconds.
abbrev pub default : ℕ → Genesis
default now = record {
  chain_id = codes "eastchain-1";
  numeric_chain_id = east_chain_id;
  genesis_time = now;
  max_supply = total_max_supply;
  buckets = default_buckets;
  accounts = [];
  min_validator_stake = 0;
  min_fullnode_stake = 0;
  chain_signing_address = [];
}

-- The loop of Validate, with the caps summed so far.
unfoldable pub sum_caps : ℕ → List Bucket → Result ℕ
sum_caps sum [] = ok sum
sum_caps sum (b ∷ bs) =
    let rest = sum_caps (sum +64 b.cap) bs in
    do
      guard (not (lt64 b.cap 0 || lt64 b.minted 0)) negative_bucket
      guard (not (lt64 b.cap b.minted)) minted_over_cap
      rest

abbrev at_least_zero : ℕ → ℕ
at_least_zero a = if lt64 a 0 then 0 else a

-- The receiver is changed: the result is the genesis after the call.
unfoldable pub validate : Genesis → Result Genesis
unfolding sum_caps
validate g =
    let id = if g.numeric_chain_id == 0 then east_chain_id else g.numeric_chain_id in
    let validator_stake = at_least_zero g.min_validator_stake in
    let fullnode_stake = at_least_zero g.min_fullnode_stake in
    do
      guard (id == east_chain_id) wrong_chain_id
      sum ← sum_caps 0 g.buckets
      guard (sum == g.max_supply) caps_sum
      guard (g.max_supply == total_max_supply) wrong_max_supply
      guard (not (lt64 validator_stake fullnode_stake)) stake_order
      ok (record g {
        numeric_chain_id = id;
        min_validator_stake = validator_stake;
        min_fullnode_stake = fullnode_stake;
      })

-- A bucket whose cap and minted amount are not negative, with the amount within the cap.
pub record IsSound (b : Bucket) : Type 0 where
  pub within : b.minted ≤ b.cap
  pub small : b.cap < two62
