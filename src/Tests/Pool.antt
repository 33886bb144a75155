-- ===== src/Tests/Pool.antt =====
-- Runs of the theorems on transactions, the pool and block sync at the test's data.
use east_validator.Prelude.{◌++◌, ◌≡◌, refl, [], some, true, false}
use east_validator.Prelude.Int.{lt64, le64}
use east_validator.Prelude.Text.{is_empty, trim_space, equal_fold}
use east_validator.Prelude.Maps.{lookup, insert, text_key}
use east_validator.Prelude.Format.{hex_encode, quote, show_int64}
use east_validator.Crypto.{build_tx_message, verify_eip191, recover_address}
use east_validator.Tx.{
  claim_mining, validate_basic, validate_basic_sound, TypeSound, max_human_per_claim, tx_hash,
}
use east_validator.State.{normalize_addr}
use east_validator.State.Accounts.{get_account}
use east_validator.Mempool.{
  Mempool, check_funds, default_config, new, add, take, peek, present, check_tx, has_key,
}
use east_validator.Mempool.Invariant.{Inv, take-Inv, add-Inv, new-Inv}
use east_validator.Mempool.Order.{take-peek, put_back_refused}
use east_validator.Errors.{ok, err, already_seen}
use east_validator.Tests.{alice, ledger, pay, library}

pay_is_valid : validate_basic library [] 6000 pay ≡ ok pay
unfolding validate_basic verify_eip191 recover_address equal_fold
pay_is_valid = refl

validate_basic_sound_example :
    (is_empty alice ≡ false)
    × (lt64 0 30 ≡ true)
    × (pay.type ≡ claim_mining → le64 30 max_human_per_claim ≡ true)
    × (pay ≡ record pay { timestamp = 1000 })
    × (verify_eip191 library (build_tx_message (tx_hash library pay)) pay.signature alice ≡ ok true)
    × TypeSound library [] pay.type pay
validate_basic_sound_example = validate_basic_sound library [] 6000 pay pay pay_is_valid

abbrev empty_pool : Mempool
empty_pool = new default_config

abbrev pool : Mempool
pool = (add library [] 6000 (some pay) empty_pool ledger).0

add-Inv_example : Inv pool
add-Inv_example = add-Inv library [] 6000 (some pay) empty_pool ledger (new-Inv default_config)

pool_is_good : Inv pool
pool_is_good = add-Inv library [] 6000 (some pay) empty_pool ledger (new-Inv default_config)

take-Inv_example : Inv (take 1 pool).0
take-Inv_example = take-Inv 1 pool pool_is_good

take-peek_example :
    ((take 1 pool).1 ≡ peek 1 pool)
    × (present pool.by_hash pool.order
        ≡ (take 1 pool).1 ++ present (take 1 pool).0.by_hash (take 1 pool).0.order)
take-peek_example = take-peek 1 pool pool_is_good

pay_is_checked : check_tx library [] 6000 (some pay) (take 0 pool).0 ledger ≡ ok pay
unfolding check_tx validate_basic verify_eip191 recover_address equal_fold take add new tx_hash
    hex_encode get_account lookup normalize_addr trim_space check_funds
pay_is_checked = refl

pay_is_seen : has_key (lookup (tx_hash library pay) pool.seen) ≡ true
unfolding lookup add validate_basic verify_eip191 recover_address equal_fold new tx_hash hex_encode
    get_account normalize_addr trim_space check_funds insert quote show_int64
pay_is_seen = refl

put_back_refused_example :
    add library [] 6000 (some pay) (take 0 pool).0 ledger ≡ ((take 0 pool).0, err already_seen)
put_back_refused_example =
    put_back_refused library [] 6000 pay pay pool ledger pool_is_good pay_is_checked pay_is_seen
