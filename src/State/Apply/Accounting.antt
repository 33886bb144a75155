-- ===== src/State/Apply/Accounting.antt =====
-- What ApplyTx does to the total that all accounts hold, and to the supply buckets.
use east_validator.Prelude.{
  Bool-cases, inl, inr, if◌then◌else◌, ℕ, ◌+◌, ◌*◌, ◌<◌, ◌≡◌, refl, sym, ap, true, false, arith,
}
use east_validator.Prelude.Int.{two63, lt64, ◌+64◌, ◌*64◌}
use east_validator.Prelude.Text.{Text, text_eq, text_eq_iff}
use east_validator.Tx.{
  Transaction, TxType, transfer, request_unstake, claim_unstake, stake, claim_mining, unknown,
  subunits_per_east, ClaimMiningPayload, parse_claim_mining_payload,
}
use east_validator.Errors.{ok, >>=-eq-ok}
use east_validator.State.{Account, Store, normalize_addr}
use east_validator.State.Accounts.{
  get_account, get_account_txn, set_account_txn, mint_from_bucket_txn,
}
use east_validator.State.Accounts.Lookup.{IsNormal, get_account_txn-normal, get_account-set}
use east_validator.State.Accounts.Holdings.{worth, total, holdings, holdings-set, worth-le-holdings}
use east_validator.State.Apply.{
  apply_tx, apply_type, claim_credit, paid_by, credited_by, staked_by, requested_by, returned_by,
  claimed_by,
}

-- What a transaction of the type adds to the total: a claim mints, in subunits, and a transfer to
-- the sender's own account, under some spelling, creates its amount.
abbrev pub minted_by : TxType → Transaction → ℕ
minted_by claim_mining t = t.amount * subunits_per_east
minted_by transfer t = if text_eq (normalize_addr t.from) (normalize_addr t.to) then t.amount else 0
minted_by _ t = 0

stake_holdings :
    (t : Transaction) (s : Store) {s' : Store}
    → t.amount < two63
    → holdings s < two63
    → apply_type stake t (get_account t.from s) s ≡ ok s'
    → holdings s' ≡ holdings s
unfolding apply_type
stake_holdings t s a b h =
    ground (
      arith,
      holdings-set t.from (staked_by t (get_account t.from s)) s,
      worth-le-holdings t.from s,
    )

request_holdings :
    (t : Transaction) (s : Store) {s' : Store}
    → t.amount < two63
    → holdings s < two63
    → apply_type request_unstake t (get_account t.from s) s ≡ ok s'
    → holdings s' ≡ holdings s
unfolding apply_type
request_holdings t s a b h = ground (
  arith,
  holdings-set t.from (requested_by t (get_account t.from s)) s,
  worth-le-holdings t.from s,
)

claim_unstake_holdings :
    (t : Transaction) (s : Store) {s' : Store}
    → t.amount < two63
    → holdings s < two63
    → apply_type claim_unstake t (get_account t.from s) s ≡ ok s'
    → holdings s' ≡ holdings s
unfolding apply_type
claim_unstake_holdings t s a b h = ground (
  arith,
  holdings-set t.from (returned_by t (get_account t.from s)) s,
  worth-le-holdings t.from s,
)

-- The first write of a transfer takes the amount out.
paid_holdings :
    (t : Transaction) (s : Store)
    → t.amount < two63
    → holdings s < two63
    → lt64 (get_account t.from s).balance t.amount ≡ false
    → holdings (set_account_txn t.from (paid_by t (get_account t.from s)) s) + t.amount ≡ holdings s
paid_holdings t s a b e =
    ground
      (arith, holdings-set t.from (paid_by t (get_account t.from s)) s, worth-le-holdings t.from s)

-- The second write puts it in, at an account that the first did not touch.
credited_holdings :
    (to : Text) (amount : ℕ) (s : Store)
    → holdings s + amount < two63
    → holdings (set_account_txn to (credited_by amount (get_account to s)) s) ≡ holdings s + amount
credited_holdings to amount s b =
    ground
      (arith, holdings-set to (credited_by amount (get_account to s)) s, worth-le-holdings to s)

abbrev pub after_paying : Transaction → Store → Store
after_paying t s = set_account_txn t.from (paid_by t (get_account t.from s)) s

pub transfer_result :
    (t : Transaction) (s : Store) {s' : Store}
    → apply_type transfer t (get_account t.from s) s ≡ ok s'
    → (lt64 (get_account t.from s).balance t.amount ≡ false)
      × (s'
          ≡ set_account_txn t.to (credited_by t.amount (get_account_txn t.to s)) (after_paying t s))
unfolding apply_type
transfer_result t s h = ground arith

-- The recipient's account as it is read stands as it is after the first write.
target_unchanged :
    (t : Transaction) (s : Store)
    → IsNormal s
    → text_eq (normalize_addr t.from) (normalize_addr t.to) ≡ false
    → get_account_txn t.to s ≡ get_account t.to (after_paying t s)
target_unchanged t s n d = rw (
  get_account_txn-normal t.to s n,
  get_account-set t.from t.to (paid_by t (get_account t.from s)) s,
  d,
)

transfer_holdings :
    (t : Transaction) (s : Store) {s' : Store}
    → IsNormal s
    → t.amount < two63
    → holdings s < two63
    → text_eq (normalize_addr t.from) (normalize_addr t.to) ≡ false
    → apply_type transfer t (get_account t.from s) s ≡ ok s'
    → holdings s' ≡ holdings s
transfer_holdings t s n a b d h =
    let (funds, result) = transfer_result t s h in
    let paid = paid_holdings t s a b funds in
    rw (result, target_unchanged t s n d)
      (omega (arith, paid, credited_holdings t.to t.amount (after_paying t s)))

-- The second write of a transfer to oneself goes over what the first has left.
own_credit :
    (t : Transaction) (s : Store)
    → t.amount < two63
    → holdings s + t.amount < two63
    → text_eq (normalize_addr t.from) (normalize_addr t.to) ≡ true
    → lt64 (get_account t.from s).balance t.amount ≡ false
    → holdings
        (set_account_txn t.to (credited_by t.amount (get_account t.from s)) (after_paying t s))
      ≡ holdings s + t.amount
own_credit t s a b own funds =
    let left : get_account t.to (after_paying t s) ≡ paid_by t (get_account t.from s) =
      rw (get_account-set t.from t.to (paid_by t (get_account t.from s)) s, own) in
    ground (
      arith,
      ap worth left,
      paid_holdings t s a (omega arith) funds,
      worth-le-holdings t.from s,
      holdings-set t.to (credited_by t.amount (get_account t.from s)) (after_paying t s),
    )

own_transfer_holdings :
    (t : Transaction) (s : Store) {s' : Store}
    → IsNormal s
    → t.amount < two63
    → holdings s + t.amount < two63
    → text_eq (normalize_addr t.from) (normalize_addr t.to) ≡ true
    → apply_type transfer t (get_account t.from s) s ≡ ok s'
    → holdings s' ≡ holdings s + t.amount
own_transfer_holdings t s n a b own h =
    let (funds, result) = transfer_result t s h in
    let same : normalize_addr t.from ≡ normalize_addr t.to = (text_eq_iff _ _).0 own in
    let read : get_account t.to s ≡ get_account t.from s = unfold get_account in rw same in
    rw (result, get_account_txn-normal t.to s n, read) (own_credit t s a b own funds)

-- Minting touches no account.
pub mint_accounts :
    (name : Text) (amount : ℕ) (s : Store) {s' : Store}
    → mint_from_bucket_txn name amount s ≡ ok s'
    → s'.accounts ≡ s.accounts
unfolding mint_from_bucket_txn
mint_accounts name amount s h = ground arith

claim_credit_value :
    (amount : ℕ) {c : ℕ} → claim_credit amount ≡ ok c → c ≡ amount *64 subunits_per_east
unfolding claim_credit
claim_credit_value amount h = ground arith

pub claim_result :
    (t : Transaction) (acc : Account) (s : Store) {s' : Store}
    → apply_type claim_mining t acc s ≡ ok s'
    → (p : ClaimMiningPayload) × (m : Store) × (c : ℕ) × (parse_claim_mining_payload t.payload
        ≡ ok p)
      × (mint_from_bucket_txn p.bucket t.amount s ≡ ok m)
      × (claim_credit t.amount ≡ ok c)
      × (s' ≡ set_account_txn t.from (claimed_by t.nonce c acc) m)
unfolding apply_type
claim_result t acc s h =
    let (p, e, h₁) = >>=-eq-ok (parse_claim_mining_payload t.payload) _ h in
    let (m, f, h₂) = >>=-eq-ok (mint_from_bucket_txn p.bucket t.amount s) _ h₁ in
    let (c, g, h₃) = >>=-eq-ok (claim_credit t.amount) _ h₂ in (p, m, c, e, f, g, cc)

claim_mining_holdings :
    (t : Transaction) (s : Store) {s' : Store}
    → holdings s + t.amount * subunits_per_east < two63
    → apply_type claim_mining t (get_account t.from s) s ≡ ok s'
    → holdings s' ≡ holdings s + t.amount * subunits_per_east
claim_mining_holdings t s {s'} b h =
    let (p, m, c, e, f, g, result) = claim_result t (get_account t.from s) s h in
    let kept : m.accounts ≡ s.accounts = mint_accounts p.bucket t.amount s f in
    let same : holdings m ≡ holdings s = ap total kept in
    let read : get_account t.from m ≡ get_account t.from s = unfold get_account in rw kept in
    rw result (
      ground (
        arith,
        same,
        ap worth read,
        ap (λ (a : Account). a.balance) read,
        claim_credit_value t.amount g,
        holdings-set t.from (claimed_by t.nonce c (get_account t.from s)) m,
        worth-le-holdings t.from s,
      ))

pub apply_type-holdings :
    (ty : TxType) (t : Transaction) (s : Store) {s' : Store}
    → IsNormal s
    → t.amount < two63
    → holdings s + minted_by ty t < two63
    → apply_type ty t (get_account t.from s) s ≡ ok s'
    → holdings s' ≡ holdings s + minted_by ty t
apply_type-holdings transfer t s n a b h =
    elim (Bool-cases (text_eq (normalize_addr t.from) (normalize_addr t.to))) [
      | inl own ↦ rw own (own_transfer_holdings t s n a (rw own at b) own h)
      | inr other ↦ rw other (omega (arith, transfer_holdings t s n a (omega arith) other h))
    ]
apply_type-holdings request_unstake t s n a b h =
    omega (arith, request_holdings t s a (omega arith) h)
apply_type-holdings claim_unstake t s n a b h =
    omega (arith, claim_unstake_holdings t s a (omega arith) h)
apply_type-holdings stake t s n a b h = omega (arith, stake_holdings t s a (omega arith) h)
apply_type-holdings claim_mining t s n a b h = claim_mining_holdings t s b h
apply_type-holdings (unknown name) t s n a b h = absurd (unfold apply_type in cc)

-- ApplyTx past the check of the nonce.
pub apply_tx_inner :
    (t : Transaction) (s : Store) {s' : Store}
    → IsNormal s
    → apply_tx t s ≡ ok s'
    → (0 < t.nonce → (get_account t.from s).nonce < t.nonce)
      × (apply_type t.type t (get_account t.from s) s ≡ ok s')
unfolding apply_tx
apply_tx_inner t s n h =
    let e = get_account_txn-normal t.from s n in (λ z. ground (arith, e), ground (arith, e))

-- In a store without legacy keys, an accepted transaction with an amount that is not negative
-- changes what all accounts hold together by exactly this, as long as it stays below 2^63: a claim
-- adds its amount in subunits, a transfer whose sender and recipient are one address under some
-- spelling adds its amount, and every other transfer, a stake and both steps of an unstake add
-- nothing.
pub apply_tx-holdings :
    (t : Transaction) (s : Store) {s' : Store}
    → IsNormal s
    → t.amount < two63
    → holdings s + minted_by t.type t < two63
    → apply_tx t s ≡ ok s'
    → holdings s' ≡ holdings s + minted_by t.type t
apply_tx-holdings t s n a b h = apply_type-holdings t.type t s n a b (apply_tx_inner t s n h).1

-- In a store without legacy keys, an accepted transfer to the sender's own account, under any
-- spelling, adds the amount to the account's balance, with the wrap-around of 64 bits, and leaves
-- the account's nonce as it was.
pub own_transfer_mints :
    (t : Transaction) (s : Store) {s' : Store}
    → IsNormal s
    → t.type ≡ transfer
    → normalize_addr t.from ≡ normalize_addr t.to
    → apply_tx t s ≡ ok s'
    → (get_account t.from s').balance ≡ (get_account t.from s).balance +64 t.amount
      × (get_account t.from s').nonce ≡ (get_account t.from s).nonce
own_transfer_mints t s {s'} n ty own h =
    let inner : apply_type transfer t (get_account t.from s) s ≡ ok s' =
      simp ty at ((apply_tx_inner t s n h).1) in
    let (funds, result) = transfer_result t s inner in
    let same : text_eq (normalize_addr t.to) (normalize_addr t.from) ≡ true =
      (text_eq_iff _ _).1 (sym own) in
    let read : get_account t.to s ≡ get_account t.from s = unfold get_account in rw own in
    rw
      (
        result,
        get_account_txn-normal t.to s n,
        get_account-set t.to t.from _ (after_paying t s),
        same,
        read,
      )
      (refl, refl)
