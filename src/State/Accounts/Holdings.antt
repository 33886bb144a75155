-- ===== src/State/Accounts/Holdings.antt =====
-- What all accounts together hold, free, staked and being unstaked, as unbounded numbers.
use east_validator.Prelude.{
  ℕ, ◌+◌, ◌≤◌, ◌≡◌, refl, inl, inr, List, [], ◌∷◌, Option, none, some, arith, Bool-cases,
}
use east_validator.Prelude.Text.{Text, text_eq}
use east_validator.Prelude.Maps.{lookup, insert, text_key}
use east_validator.State.{Account, zero_account, Store, normalize_addr}
use east_validator.State.Accounts.{get_or, get_account, set_account_txn}

abbrev pub worth : Account → ℕ
worth a = a.balance + a.staked + a.pending_unstake

abbrev worth_of : Option Account → ℕ
worth_of none = 0
worth_of (some a) = worth a

abbrev pub total : List (Text × Account) → ℕ
total [] = 0
total ((k, a) ∷ m) = worth a + total m

abbrev pub holdings : Store → ℕ
holdings s = total s.accounts

total-insert :
    (k : Text) (v : Account) (m : List (Text × Account))
    → total (insert k v m) + worth_of (lookup k m) ≡ total m + worth v
unfolding insert lookup
total-insert k v [] = omega arith
total-insert k v ((j, w) ∷ m) = elim (Bool-cases (text_eq j k)) [
  | inl e ↦ rw e (omega arith)
  | inr e ↦ rw e (omega (arith, total-insert k v m))
]

worth_of-get_or : (o : Option Account) → worth (get_or o zero_account) ≡ worth_of o
worth_of-get_or none = refl
worth_of-get_or (some a) = refl

-- A write replaces what the account held before.
pub holdings-set :
    (a : Text) (acc : Account) (s : Store)
    → holdings (set_account_txn a acc s) + worth (get_account a s) ≡ holdings s + worth acc
unfolding set_account_txn get_account
holdings-set a acc s = omega (
  arith,
  total-insert (normalize_addr a) acc s.accounts,
  worth_of-get_or (lookup (normalize_addr a) s.accounts),
)

worth-le-total : (k : Text) (m : List (Text × Account)) → worth_of (lookup k m) ≤ total m
unfolding lookup
worth-le-total k [] = omega arith
worth-le-total k ((j, w) ∷ m) = elim (Bool-cases (text_eq j k)) [
  | inl e ↦ rw e (omega arith)
  | inr e ↦ rw e (omega (arith, worth-le-total k m))
]

pub worth-le-holdings : (a : Text) (s : Store) → worth (get_account a s) ≤ holdings s
unfolding get_account
worth-le-holdings a s = omega (
  arith,
  worth-le-total (normalize_addr a) s.accounts,
  worth_of-get_or (lookup (normalize_addr a) s.accounts),
)
