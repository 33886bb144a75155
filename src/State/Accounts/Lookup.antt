-- ===== src/State/Accounts/Lookup.antt =====
-- What reading an account gives after a write. A store whose keys are all normal, as ApplyTx
-- writes them, has no legacy keys.
use east_validator.Prelude.{
  ◌≡◌, refl, sym, ap, ◌∙◌, inl, inr, false, List, [], ◌∷◌, Option, none, some, All, Bool-cases,
  if◌then◌else◌,
}
use east_validator.Prelude.Text.{Text, text_eq, text_eq_iff, normal_twice}
use east_validator.Prelude.Maps.{lookup, insert, lookup-insert, text_key}
use mathlib.Core.Bool.{false≢true}
use east_validator.State.{Account, zero_account, Store, normalize_addr}
use east_validator.State.Accounts.{
  get_or, first_of_two, get_account, get_account_txn, set_account_txn,
}

pub normalize_addr_twice : (a : Text) → normalize_addr (normalize_addr a) ≡ normalize_addr a
unfolding normalize_addr
normalize_addr_twice a = normal_twice a

-- Every key is in normal form.
abbrev pub IsNormal : Store → Type 0
IsNormal s = All (λ (e : Text × Account). normalize_addr e.0 ≡ e.0) s.accounts

lookup_normal :
    (a : Text) (m : List (Text × Account))
    → All (λ (e : Text × Account). normalize_addr e.0 ≡ e.0) m
    → text_eq (normalize_addr a) a ≡ false
    → lookup a m ≡ none
unfolding lookup
lookup_normal a [] h e = refl
lookup_normal a ((k, v) ∷ m) h e = elim (Bool-cases (text_eq k a)) [
  | inl f ↦
      let same = (text_eq_iff k a).0 f in
      absurd (
        false≢true (
          sym e
          ∙ (text_eq_iff (normalize_addr a) a).1 (ap normalize_addr (sym same) ∙ (h.0 ∙ same))))
  | inr f ↦ rw f (lookup_normal a m h.1 e)
]

first-none :
    (o : Option Account) → get_or (first_of_two o none) zero_account ≡ get_or o zero_account
first-none none = refl
first-none (some a) = refl

-- In such a store both ways to read an account agree.
pub get_account_txn-normal :
    (a : Text) (s : Store) → IsNormal s → get_account_txn a s ≡ get_account a s
unfolding get_account_txn get_account
get_account_txn-normal a s h =
    rw (normalize_addr_twice a) (elim (Bool-cases (text_eq (normalize_addr a) a)) [
      | inl e ↦ rw (e, first_of_two) (first-none (lookup (normalize_addr a) s.accounts))
      | inr e ↦
          rw (e, lookup_normal a s.accounts h e) (first-none (lookup (normalize_addr a) s.accounts))
    ])

-- A write is read back under every spelling of the address, and by no other address.
pub get_account-set :
    (a b : Text) (acc : Account) (s : Store)
    → get_account b (set_account_txn a acc s)
      ≡ (if text_eq (normalize_addr a) (normalize_addr b) then acc else get_account b s)
unfolding get_account set_account_txn
get_account-set a b acc s =
    rw (lookup-insert (normalize_addr a) (normalize_addr b) acc s.accounts)
      (elim (Bool-cases (text_eq (normalize_addr a) (normalize_addr b))) [
        | inl e ↦ rw e
        | inr e ↦ rw e
      ])

insert_normal :
    (k : Text) (v : Account) (m : List (Text × Account))
    → normalize_addr k ≡ k
    → All (λ (e : Text × Account). normalize_addr e.0 ≡ e.0) m
    → All (λ (e : Text × Account). normalize_addr e.0 ≡ e.0) (insert k v m)
unfolding insert
insert_normal k v [] n h = (n, tt)
insert_normal k v ((j, w) ∷ m) n h = elim (Bool-cases (text_eq j k)) [
  | inl e ↦ rw e (h.0, h.1)
  | inr e ↦ rw e (h.0, insert_normal k v m n h.1)
]

pub set_account_txn-IsNormal :
    (a : Text) (acc : Account) (s : Store) → IsNormal s → IsNormal (set_account_txn a acc s)
unfolding set_account_txn
set_account_txn-IsNormal a acc s h =
    insert_normal (normalize_addr a) acc s.accounts (normalize_addr_twice a) h
