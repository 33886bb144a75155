-- ===== src/State/Apply/Caps.antt =====
-- state.go: the caps of the supply buckets across ApplyTx.
use east_validator.Prelude.{
  ℕ, ◌-◌, ◌*◌, ◌/◌, ◌%◌, ◌≤◌, ◌<◌, ◌≡◌, refl, ◌≢◌, inl, inr, true, false, List, [], ◌∷◌, none, some,
  arith, All, Bool-cases, Option-cases, ltb,
}
use native.Mathlib.Nat.{div-add-mod}
use east_validator.Prelude.Int.{two62, two63, two64, lt64, ◌+64◌, div64}
use east_validator.Prelude.Text.{Text, text_eq}
use east_validator.Prelude.Maps.{lookup, insert, text_key}
use east_validator.Genesis.{Bucket, IsSound}
use east_validator.Tx.{Transaction, TxType, claim_mining, subunits_per_east}
use east_validator.Errors.{ok}
use east_validator.State.{Account, Store}
use east_validator.State.Accounts.{get_account_txn, set_account_txn, mint_from_bucket_txn}
use east_validator.State.Apply.{apply_tx, apply_type, claim_credit}
use east_validator.State.Apply.Accounting.{claim_result}

quotient_le : (x a : ℕ) → x / a ≡ subunits_per_east → a * subunits_per_east ≤ x
quotient_le x a e = rw (← e) (omega (arith, div-add-mod x a))

quotient_small : (x a : ℕ) → x / a ≤ x
quotient_small x a = grind (arith, div-add-mod x a)

-- The overflow check is exact: a positive amount passes when its product with the scale fits.
pub claim_credit_fits :
    (amount : ℕ) {c : ℕ}
    → 0 < amount
    → amount < two63
    → claim_credit amount ≡ ok c
    → (c ≡ amount * subunits_per_east) × (c < two63)
unfolding claim_credit div64
claim_credit_fits amount z b h =
    let p = amount * subunits_per_east in
    let x = p % two64 in
    elim (Bool-cases (ltb x two63)) [
      | inl small ↦ ground (arith, quotient_le x amount)
      | inr large ↦ ground (arith, quotient_small (two64 - x) amount)
    ]

-- Every bucket holds a cap and a minted amount within it.
abbrev pub BucketsSound : Store → Type 0
BucketsSound s = All (λ (e : Text × Bucket). IsSound e.1) s.buckets

lookup-IsSound :
    (k : Text) (m : List (Text × Bucket)) {b : Bucket}
    → All (λ (e : Text × Bucket). IsSound e.1) m
    → lookup k m ≡ some b
    → IsSound b
unfolding lookup
lookup-IsSound k [] h e = absurd (cc)
lookup-IsSound k ((j, w) ∷ m) {b} h e = elim (Bool-cases (text_eq j k)) [
  | inl f ↦ ground (arith, h.0)
  | inr f ↦ lookup-IsSound k m h.1 (rw (f, lookup) at e)
]

insert-IsSound :
    (k : Text) (b : Bucket) (m : List (Text × Bucket))
    → IsSound b
    → All (λ (e : Text × Bucket). IsSound e.1) m
    → All (λ (e : Text × Bucket). IsSound e.1) (insert k b m)
unfolding insert
insert-IsSound k b [] v h = (v, tt)
insert-IsSound k b ((j, w) ∷ m) v h = elim (Bool-cases (text_eq j k)) [
  | inl f ↦ rw f (v, h.1)
  | inr f ↦ rw f (h.0, insert-IsSound k b m v h.1)
]

raised_by : ℕ → Bucket → Bucket
raised_by amount b = record b { minted = b.minted +64 amount }

mint_result :
    (name : Text) (amount : ℕ) (b : Bucket) (s : Store) {s' : Store}
    → lookup name s.buckets ≡ some b
    → mint_from_bucket_txn name amount s ≡ ok s'
    → (lt64 b.cap (b.minted +64 amount) ≡ false)
      × (s'.buckets ≡ insert name (raised_by amount b) s.buckets)
unfolding mint_from_bucket_txn raised_by
mint_result name amount b s e h = ground arith

mint_missing :
    (name : Text) (amount : ℕ) (s : Store) {s' : Store}
    → lookup name s.buckets ≡ none
    → mint_from_bucket_txn name amount s ≢ ok s'
unfolding mint_from_bucket_txn
mint_missing name amount s e h = ground arith

raised-IsSound :
    (amount : ℕ) (b : Bucket)
    → amount < two62
    → lt64 b.cap (b.minted +64 amount) ≡ false
    → IsSound b
    → IsSound (raised_by amount b)
unfolding raised_by
raised-IsSound amount b a l v = ground arith

mint_sound :
    (name : Text) (amount : ℕ) (s : Store) {s' : Store}
    → amount < two62
    → BucketsSound s
    → mint_from_bucket_txn name amount s ≡ ok s'
    → BucketsSound s'
mint_sound name amount s a v h = elim (Option-cases (lookup name s.buckets)) [
  | inl e ↦ absurd (mint_missing name amount s e h)
  | inr (b, e) ↦
      let (room, result) = mint_result name amount b s e h in
      rw result (
        insert-IsSound name (raised_by amount b) s.buckets
          (raised-IsSound amount b a room (lookup-IsSound name s.buckets v e)) v)
]

mint_positive :
    (name : Text) (amount : ℕ) (s : Store) {s' : Store}
    → mint_from_bucket_txn name amount s ≡ ok s'
    → lt64 0 amount ≡ true
unfolding mint_from_bucket_txn
mint_positive name amount s h = ground arith

-- A claim passes its overflow check only when the amount is far below what could wrap a bucket.
claimed_small :
    (name : Text) (amount : ℕ) (s : Store) {m : Store} {c : ℕ}
    → amount < two64
    → mint_from_bucket_txn name amount s ≡ ok m
    → claim_credit amount ≡ ok c
    → amount < two62
claimed_small name amount s w h g =
    let z = mint_positive name amount s h in
    let positive : 0 < amount = ground (arith, z) in
    let small : amount < two63 = ground (arith, z) in
    omega (arith, claim_credit_fits amount positive small g)

same_buckets :
    (ty : TxType) (t : Transaction) (acc : Account) (s : Store) {s' : Store}
    → ty ≢ claim_mining
    → apply_type ty t acc s ≡ ok s'
    → s'.buckets ≡ s.buckets
unfolding apply_type set_account_txn
same_buckets claim_mining t acc s d h = absurd (d refl)
same_buckets ty t acc s d h = ground arith

apply_type-BucketsSound :
    (ty : TxType) (t : Transaction) (acc : Account) (s : Store) {s' : Store}
    → t.amount < two64
    → BucketsSound s
    → apply_type ty t acc s ≡ ok s'
    → BucketsSound s'
apply_type-BucketsSound claim_mining t acc s a v h =
    let (p, m, c, e, f, g, result) = claim_result t acc s h in
    rw result (
      unfold set_account_txn in
      mint_sound p.bucket t.amount s (claimed_small p.bucket t.amount s a f g) v f)
apply_type-BucketsSound ty t acc s a v h = rw (same_buckets ty t acc s (λ e. cc) h) v

-- Whatever its type and its amount, an accepted transaction leaves every supply bucket within its
-- cap, when each was and no cap reaches 2^62: the claim whose amount could wrap the minted
-- total is refused by the overflow check that comes after the mint.
pub apply_tx-BucketsSound :
    (t : Transaction) (s : Store) {s' : Store}
    → t.amount < two64
    → BucketsSound s
    → apply_tx t s ≡ ok s'
    → BucketsSound s'
unfolding apply_tx
apply_tx-BucketsSound t s {s'} a v h =
    apply_type-BucketsSound t.type t (get_account_txn t.from s) s {s' = s'} a v (ground arith)
