-- ===== src/State/Backup/Import.antt =====
-- backup.go: what an import leaves, and what it takes from a snapshot.
use east_validator.Prelude.{
  ℕ, ◌≡◌, refl, sym, ap, ◌∙◌, inl, inr, Bool, true, false, not, ◌&&◌, List, [], ◌∷◌, Option, none,
  some, Bool-cases, ltb, ◌==◌, if◌then◌else◌,
}
use east_validator.Prelude.Text.{Text, text_eq, text_eq_iff}
use east_validator.Prelude.Maps.{text_key}
use mathlib.Core.Bool.{false≢true}
use east_validator.State.{Account, BlockHeader, Store, ValidatorSetRecord, normalize_addr}
use east_validator.State.Accounts.{get_account, set_account_txn}
use east_validator.State.Accounts.Lookup.{get_account-set}
use east_validator.State.Blocks.{save_block}
use east_validator.State.Roster.{save_validator_set}
use east_validator.State.Backup.{
  BackupSnapshot, is_used, restore_all, restore_members, restore_set, restore_accounts, save_all,
  set_tip, import_full_snapshot,
}

-- Two spellings of one address read one account.
same_account :
    (a b : Text) (s : Store)
    → normalize_addr a ≡ normalize_addr b
    → get_account a s ≡ get_account b s
unfolding get_account
same_account a b s e = rw e refl

-- A write to an unused account leaves a used one as it is.
get_account-set_account_unused :
    (a b : Text) (acc : Account) (s : Store)
    → is_used (get_account a s) ≡ false
    → is_used (get_account b s) ≡ true
    → get_account b (set_account_txn a acc s) ≡ get_account b s
get_account-set_account_unused a b acc s free used =
    get_account-set a b acc s ∙ elim (Bool-cases (text_eq (normalize_addr a) (normalize_addr b))) [
      | inl e ↦
          let same = same_account a b s ((text_eq_iff (normalize_addr a) (normalize_addr b)).0 e) in
          absurd (false≢true (sym free ∙ (ap is_used same ∙ used)))
      | inr e ↦ rw e
    ]

restore_all-is_used :
    (m : List (Text × Account)) (addr : Text) (s : Store)
    → is_used (get_account addr s) ≡ true
    → get_account addr (restore_all false m s).0 ≡ get_account addr s
unfolding restore_all
restore_all-is_used [] addr s used = refl
restore_all-is_used ((a, acc) ∷ m) addr s used = elim (Bool-cases (is_used (get_account a s))) [
  | inl e ↦ rw e (restore_all-is_used m addr s used)
  | inr e ↦
      let kept = get_account-set_account_unused a addr acc s e used in
      rw e (restore_all-is_used m addr (set_account_txn a acc s) (ap is_used kept ∙ used) ∙ kept)
]

pub save_all-accounts :
    (hs : List BlockHeader) (s : Store) → (save_all hs s).0.accounts ≡ s.accounts
unfolding save_all save_block
save_all-accounts [] s = refl
save_all-accounts (h ∷ hs) s = save_all-accounts hs (save_block h s)

save_all-buckets : (hs : List BlockHeader) (s : Store) → (save_all hs s).0.buckets ≡ s.buckets
unfolding save_all save_block
save_all-buckets [] s = refl
save_all-buckets (h ∷ hs) s = save_all-buckets hs (save_block h s)

restore_all-buckets :
    (force : Bool) (m : List (Text × Account)) (s : Store)
    → (restore_all force m s).0.buckets ≡ s.buckets
unfolding restore_all set_account_txn
restore_all-buckets force [] s = refl
restore_all-buckets force ((a, acc) ∷ m) s =
    elim (Bool-cases (not force && is_used (get_account a s))) [
      | inl e ↦ rw e (restore_all-buckets force m s)
      | inr e ↦ rw e (restore_all-buckets force m (set_account_txn a acc s))
    ]

restore_members_same :
    (now : ℕ) (addrs : List Text) (s : Store)
    → ((restore_members now addrs s).accounts ≡ s.accounts)
      × ((restore_members now addrs s).buckets ≡ s.buckets)
unfolding save_validator_set
restore_members_same now [] s = (refl, refl)
restore_members_same now (a ∷ more) s = (refl, refl)

restore_set_same :
    (now : ℕ) (o : Option ValidatorSetRecord) (s : Store)
    → ((restore_set now o s).accounts ≡ s.accounts) × ((restore_set now o s).buckets ≡ s.buckets)
restore_set_same now none s = (refl, refl)
restore_set_same now (some rec) s = restore_members_same now rec.addresses s

set_tip_same :
    (height : ℕ) (s : Store)
    → ((set_tip height s).accounts ≡ s.accounts) × ((set_tip height s).buckets ≡ s.buckets)
set_tip_same height s = elim (Bool-cases (ltb 0 height)) [
  | inl e ↦ rw e (refl, refl)
  | inr e ↦ rw e (refl, refl)
]

-- What the store is after the accounts, the validator set, the headers and the tip are taken in.
unfoldable pub taken_in : ℕ → Bool → BackupSnapshot → Store → Store
taken_in now force snap s =
    set_tip snap.latest_height (save_all snap.recent_blocks (restore_accounts now force snap s).0).0

pub taken_in-accounts :
    (now : ℕ) (force : Bool) (snap : BackupSnapshot) (s : Store)
    → (taken_in now force snap s).accounts ≡ (restore_all force snap.accounts s).0.accounts
unfolding taken_in restore_accounts
taken_in-accounts now force snap s =
    let all = (restore_all force snap.accounts s).0 in
    let set = restore_set now snap.validator_set all in
    (set_tip_same snap.latest_height (save_all snap.recent_blocks set).0).0
    ∙ (save_all-accounts snap.recent_blocks set ∙ (restore_set_same now snap.validator_set all).0)

pub taken_in-buckets :
    (now : ℕ) (force : Bool) (snap : BackupSnapshot) (s : Store)
    → (taken_in now force snap s).buckets ≡ s.buckets
unfolding taken_in restore_accounts
taken_in-buckets now force snap s =
    let all = (restore_all force snap.accounts s).0 in
    let set = restore_set now snap.validator_set all in
    (set_tip_same snap.latest_height (save_all snap.recent_blocks set).0).1
    ∙ (save_all-buckets snap.recent_blocks set
        ∙ ((restore_set_same now snap.validator_set all).1
            ∙ restore_all-buckets force snap.accounts s))

abbrev pub other_chain : BackupSnapshot → Store → Bool
other_chain snap s =
    not (snap.numeric_chain_id == 0)
    && (not (s.numeric_chain_id == 0) && not (snap.numeric_chain_id == s.numeric_chain_id))

pub import_is :
    (now : ℕ) (snap : BackupSnapshot) (force : Bool) (s : Store)
    → (import_full_snapshot now (some snap) force s).0
      ≡ (if other_chain snap s then s else taken_in now force snap s)
unfolding import_full_snapshot taken_in
import_is now snap force s = elim (Bool-cases (other_chain snap s)) [ inl e ↦ rw e | inr e ↦ rw e ]

pub accounts_decide :
    (addr : Text) (s t : Store) → s.accounts ≡ t.accounts → get_account addr s ≡ get_account addr t
unfolding get_account
accounts_decide addr s t e = rw e refl

-- An import that is not forced leaves every account that is in use as it is, whatever the snapshot
-- holds and whether or not it is accepted. In use is what the code tests: a balance, a stake or a
-- nonce that is not zero.
pub import_full_snapshot-is_used :
    (now : ℕ) (snap : BackupSnapshot) (addr : Text) (s : Store)
    → is_used (get_account addr s) ≡ true
    → get_account addr (import_full_snapshot now (some snap) false s).0 ≡ get_account addr s
import_full_snapshot-is_used now snap addr s used =
    ap (get_account addr) (import_is now snap false s) ∙ elim (Bool-cases (other_chain snap s)) [
      | inl e ↦ rw e
      | inr e ↦ rw e (
          accounts_decide addr (taken_in now false snap s) (restore_all false snap.accounts s).0
            (taken_in-accounts now false snap s)
          ∙ restore_all-is_used snap.accounts addr s used)
    ]
