-- ===== src/State/Apply/Nonces.antt =====
-- The nonce of the sender's account across ApplyTx, and what it protects from replay.
use east_validator.Prelude.{◌<◌, ◌≡◌, refl, ap, ◌≢◌, false, arith}
use east_validator.Prelude.Text.{Text, text_eq, text_eq_refl}
use east_validator.Tx.{
  Transaction, TxType, transfer, request_unstake, claim_unstake, stake, claim_mining, unknown,
}
use east_validator.Errors.{ok, err, invalid_nonce}
use east_validator.State.{Account, Store, normalize_addr}
use east_validator.State.Accounts.{get_account, set_account_txn}
use east_validator.State.Accounts.Lookup.{
  IsNormal, get_account_txn-normal, get_account-set, set_account_txn-IsNormal,
}
use east_validator.State.Apply.{
  apply_tx, apply_type, paid_by, staked_by, requested_by, returned_by, claimed_by,
}
use east_validator.State.Apply.Accounting.{
  apply_tx_inner, claim_result, mint_accounts, transfer_result, after_paying,
}

get_account-set_self :
    (a : Text) (acc : Account) (s : Store) → get_account a (set_account_txn a acc s) ≡ acc
get_account-set_self a acc s = rw (get_account-set a a acc s, text_eq_refl (normalize_addr a))

get_account-set_other :
    (a b : Text) (acc : Account) (s : Store)
    → text_eq (normalize_addr a) (normalize_addr b) ≡ false
    → get_account b (set_account_txn a acc s) ≡ get_account b s
get_account-set_other a b acc s e = rw (get_account-set a b acc s, e)

-- An accepted transaction of any type but a transfer writes one account, the sender's, with the
-- transaction's nonce.
abbrev WritesSender : Transaction → Store → Store → Type 0
WritesSender t s s' =
    (acc : Account) × (m : Store) × (acc.nonce ≡ t.nonce)
    × (m.accounts ≡ s.accounts)
    × (s' ≡ set_account_txn t.from acc m)

single_write :
    (ty : TxType) (t : Transaction) (old : Account) (s : Store) {s' : Store}
    → ty ≢ transfer
    → apply_type ty t old s ≡ ok s'
    → WritesSender t s s'
unfolding apply_type
single_write transfer t old s d h = absurd (d refl)
single_write stake t old s d h = (staked_by t old, s, refl, refl, ground arith)
single_write request_unstake t old s d h = (requested_by t old, s, refl, refl, ground arith)
single_write claim_unstake t old s d h = (returned_by t old, s, refl, refl, ground arith)
single_write claim_mining t old s d h =
    let (p, m, c, e, f, g, result) = claim_result t old s h in
    (claimed_by t.nonce c old, m, refl, mint_accounts p.bucket t.amount s f, result)
single_write (unknown name) t old s d h = absurd (cc)

pub transfer_nonce :
    (t : Transaction) (s : Store) {s' : Store}
    → text_eq (normalize_addr t.to) (normalize_addr t.from) ≡ false
    → apply_type transfer t (get_account t.from s) s ≡ ok s'
    → (get_account t.from s').nonce ≡ t.nonce
transfer_nonce t s d h =
    let (funds, result) = transfer_result t s h in
    rw (
      result,
      get_account-set_other t.to t.from _ (after_paying t s) d,
      get_account-set_self t.from (paid_by t (get_account t.from s)) s,
    )

written_nonce :
    (t : Transaction) (s : Store) {s' : Store}
    → WritesSender t s s'
    → (get_account t.from s').nonce ≡ t.nonce
written_nonce t s (acc, m, e, kept, result) = rw (result, get_account-set_self t.from acc m) e

-- Which transactions leave their nonce at the sender: all but a transfer to oneself.
abbrev pub IsForeign : Transaction → Type 0
IsForeign t = t.type ≡ transfer → text_eq (normalize_addr t.to) (normalize_addr t.from) ≡ false

pub nonce_after :
    (ty : TxType) (t : Transaction) (s : Store) {s' : Store}
    → (ty ≡ transfer → text_eq (normalize_addr t.to) (normalize_addr t.from) ≡ false)
    → apply_type ty t (get_account t.from s) s ≡ ok s'
    → (get_account t.from s').nonce ≡ t.nonce
nonce_after transfer t s d h = transfer_nonce t s (d refl) h
nonce_after stake t s d h = written_nonce t s (single_write stake t _ s (λ e. cc) h)
nonce_after request_unstake t s d h =
    written_nonce t s (single_write request_unstake t _ s (λ e. cc) h)
nonce_after claim_unstake t s d h = written_nonce t s (single_write claim_unstake t _ s (λ e. cc) h)
nonce_after claim_mining t s d h = written_nonce t s (single_write claim_mining t _ s (λ e. cc) h)
nonce_after (unknown name) t s d h =
    written_nonce t s (single_write (unknown name) t _ s (λ e. cc) h)

written-IsNormal :
    (t : Transaction) (s : Store) {s' : Store} → WritesSender t s s' → IsNormal s → IsNormal s'
written-IsNormal t s (acc, m, e, kept, result) n =
    rw result (set_account_txn-IsNormal t.from acc m (rw kept n))

apply_type-IsNormal :
    (ty : TxType) (t : Transaction) (s : Store) {s' : Store}
    → IsNormal s
    → apply_type ty t (get_account t.from s) s ≡ ok s'
    → IsNormal s'
apply_type-IsNormal transfer t s n h =
    let (funds, result) = transfer_result t s h in
    rw result
      (set_account_txn-IsNormal t.to _ (after_paying t s) (set_account_txn-IsNormal t.from _ s n))
apply_type-IsNormal ty t s n h = written-IsNormal t s (single_write ty t _ s (λ e. cc) h) n

pub apply_tx-IsNormal :
    (t : Transaction) (s : Store) {s' : Store} → IsNormal s → apply_tx t s ≡ ok s' → IsNormal s'
apply_tx-IsNormal t s n h = apply_type-IsNormal t.type t s n (apply_tx_inner t s n h).1

-- In a store without legacy keys, an accepted transaction with a nonce other than 0, that is no
-- transfer to oneself, is refused when it is applied again.
pub apply_tx_no_replay :
    (t : Transaction) (s : Store) {s' : Store}
    → IsNormal s
    → IsForeign t
    → 0 < t.nonce
    → apply_tx t s ≡ ok s'
    → apply_tx t s' ≡ err invalid_nonce
unfolding apply_tx
apply_tx_no_replay t s {s'} n f z h = ground (
  arith,
  nonce_after t.type t s f (apply_tx_inner t s n h).1,
  get_account_txn-normal t.from s' (apply_tx-IsNormal t s n h),
)

-- In a store without legacy keys, a transaction with nonce 0 that is no transfer to oneself, once
-- accepted, sets the sender's nonce back to 0: then no transaction of that sender is refused for
-- its nonce, also one that was applied before.
pub nonce_zero_reopens :
    (t u : Transaction) (s : Store) {s' : Store}
    → IsNormal s
    → IsForeign t
    → t.nonce ≡ 0
    → normalize_addr u.from ≡ normalize_addr t.from
    → apply_tx t s ≡ ok s'
    → apply_tx u s' ≡ apply_type u.type u (get_account u.from s') s'
unfolding apply_tx
nonce_zero_reopens t u s {s'} n f z own h =
    let read : get_account u.from s' ≡ get_account t.from s' = unfold get_account in rw own in
    ground (
      arith,
      nonce_after t.type t s f (apply_tx_inner t s n h).1,
      ap (λ (a : Account). a.nonce) read,
      get_account_txn-normal u.from s' (apply_tx-IsNormal t s n h),
    )
