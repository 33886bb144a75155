-- ===== src/Errors.antt =====
-- The error values of the program and its `(value, error)` results.
use mathlib.Core.Path.{◌≡◌, refl}
use mathlib.Core.Bool.{Bool, true, false}
use mathlib.Core.Logic.{◌⊎◌, inl, inr}
use mathlib.Core.Option.{Option, none, some}

pub data Error : Type 0 where
  -- internal/crypto
  invalid_signature_hex bad_signature_length unrecoverable_key invalid_private_key : Error
  -- internal/tx
  from_required negative_amount to_required amount_not_positive over_claim_max : Error
  payload_required invalid_payload wrong_bucket oracle_signature_required oracle_not_set : Error
  oracle_mismatch unknown_tx_type signature_required signature_mismatch : Error
  -- internal/genesis
  wrong_chain_id negative_bucket minted_over_cap caps_sum wrong_max_supply stake_order : Error
  -- internal/state
  invalid_nonce insufficient_balance insufficient_staked insufficient_pending : Error
  mint_not_positive bucket_not_found over_cap credit_overflow not_found address_required : Error
  nil_proof not_included bad_hash leaf_mismatch path_sides_mismatch invalid_side : Error
  root_mismatch nil_snapshot chain_id_mismatch : Error
  -- internal/mempool
  nil_transaction tx_too_large mining_bucket_full already_seen mempool_full : Error
  -- internal/consensus
  nil_vote invalid_vote_type missing_voter nil_proposal missing_proposer no_store : Error
  height_mismatch prev_hash_mismatch block_hash_mismatch proposer_not_validator : Error
  proposer_jailed missing_seal : Error
  -- internal/p2p
  invalid_range invalid_peer_addr p2p_disabled peer_error : Error
  -- internal/sync
  request_failed bad_status bad_json archive_url_empty archive_error archive_empty : Error
  no_peers : Error
  -- internal/api
  bad_params bad_number method_not_found : Error

pub data Result {ℓ} (A : Type ℓ) : Type ℓ where
  ok : A → Result A
  err : Error → Result A

-- `if err != nil { return err }` between the steps.
infixl 5 ◌>>=◌ ◌>>◌
abbrev pub ◌>>=◌ {ℓ κ} :
    {A : Type ℓ} {B : Type κ} (step : Result A) (next : A → Result B) → Result B
err refused >>= next = err refused
ok value >>= next = next value

-- The same after a check, which gives no value.
abbrev pub ◌>>◌ {κ} : {B : Type κ} (check : Result (Unit {0})) (next : Result B) → Result B
check >> next = check >>= λ passed. next

-- `if !test { return err }`.
abbrev pub guard : Bool → Error → Result (Unit {0})
guard true e = ok tt
guard false e = err e

abbrev pub or_fail {ℓ} : {A : Type ℓ} → Option A → Error → Result A
or_fail none e = err e
or_fail (some a) e = ok a

-- `_ = f(…)` keeps the old value when `f` fails.
abbrev pub or_else {ℓ} : {A : Type ℓ} → Result A → A → A
or_else (ok a) d = a
or_else (err e) d = d

abbrev pub is_ok {ℓ} : {A : Type ℓ} → Result A → Bool
is_ok (ok a) = true
is_ok (err e) = false

-- A result is a value or an error.
pub Result-cases {ℓ} :
    {A : Type ℓ} (r : Result A) → ((a : A) × (r ≡ ok a)) ⊎ ((e : Error) × (r ≡ err e))
Result-cases (ok a) = inl (a, refl)
Result-cases (err e) = inr (e, refl)

-- A chain that succeeds, taken apart into its first step and the rest.
pub >>=-eq-ok {ℓ κ} :
    {A : Type ℓ} {B : Type κ} (step : Result A) (next : A → Result B) {result : B}
    → (step >>= next) ≡ ok result
    → (value : A) × (step ≡ ok value) × (next value ≡ ok result)
>>=-eq-ok (err refused) next e = cc
>>=-eq-ok (ok value) next e = (value, refl, e)
