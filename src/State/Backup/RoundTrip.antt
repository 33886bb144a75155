-- ===== src/State/Backup/RoundTrip.antt =====
-- backup.go: a forced import of an exported snapshot, and what it brings over.
use east_validator.Prelude.{
  ℕ, ◌≡◌, refl, sym, ap, ◌∙◌, inl, inr, true, false, List, [], ◌∷◌, none, some, All, Bool-cases,
  ltb, if◌then◌else◌,
}
use mathlib.Core.Bool.{false≢true}
use east_validator.Prelude.Text.{Text, text_eq, text_eq_iff, is_empty}
use east_validator.Prelude.Maps.{lookup, text_key}
use east_validator.State.{Account, Store, normalize_addr}
use east_validator.State.Accounts.{get_or, get_account, set_account_txn}
use east_validator.State.Accounts.Lookup.{IsNormal, get_account-set}
use east_validator.State.Blocks.{get_latest_height}
use east_validator.State.Backup.{
  restore_accounts, named_accounts, export_backup, restore_all, save_all, set_tip,
  import_full_snapshot,
}
use east_validator.State.Backup.Import.{
  taken_in, taken_in-accounts, taken_in-buckets, other_chain, import_is, accounts_decide,
}

-- The database holds a key once.
unfoldable pub OnceEach : List (Text × Account) → Type 0
OnceEach [] = Unit
OnceEach ((k, v) ∷ m) = (lookup k m ≡ none) × OnceEach m

abbrev AllNormal : List (Text × Account) → Type 0
AllNormal m = All (λ (e : Text × Account). normalize_addr e.0 ≡ e.0) m

-- A forced restore gives each address the entry of its key, if there is one.
restore_all_forced :
    (m : List (Text × Account)) (addr : Text) (s : Store)
    → AllNormal m
    → OnceEach m
    → get_account addr (restore_all true m s).0
      ≡ get_or (lookup (normalize_addr addr) m) (get_account addr s)
unfolding restore_all lookup OnceEach
restore_all_forced [] addr s normal once = refl
restore_all_forced ((a, acc) ∷ m) addr s normal once =
    restore_all_forced m addr (set_account_txn a acc s) normal.1 once.1
    ∙ (ap (get_or (lookup (normalize_addr addr) m)) (get_account-set a addr acc s)
        ∙ elim (Bool-cases (text_eq a (normalize_addr addr))) [
          | inl e ↦
              let same = (text_eq_iff a (normalize_addr addr)).0 e in
              rw (normal.0, e, sym same, once.0) refl
          | inr e ↦ rw (normal.0, e) refl
        ])

lookup-named_accounts :
    (k : Text) (m : List (Text × Account))
    → is_empty k ≡ false
    → lookup k (named_accounts m) ≡ lookup k m
unfolding named_accounts lookup
lookup-named_accounts k [] h = refl
lookup-named_accounts k ((a, acc) ∷ m) h = elim (Bool-cases (is_empty a)) [
  | inl e ↦ elim (Bool-cases (text_eq a k)) [
    | inl f ↦ absurd (false≢true (sym h ∙ (ap is_empty (sym ((text_eq_iff a k).0 f)) ∙ e)))
    | inr f ↦ rw (e, f) (lookup-named_accounts k m h)
  ]
  | inr e ↦ rw e (ap (λ rest. if text_eq a k then some acc else rest) (lookup-named_accounts k m h))
]

named_accounts-AllNormal : (m : List (Text × Account)) → AllNormal m → AllNormal (named_accounts m)
unfolding named_accounts
named_accounts-AllNormal [] h = tt
named_accounts-AllNormal ((a, acc) ∷ m) h = elim (Bool-cases (is_empty a)) [
  | inl e ↦ rw e (named_accounts-AllNormal m h.1)
  | inr e ↦ rw e (h.0, named_accounts-AllNormal m h.1)
]

named_accounts-OnceEach : (m : List (Text × Account)) → OnceEach m → OnceEach (named_accounts m)
unfolding named_accounts OnceEach
named_accounts-OnceEach [] h = tt
named_accounts-OnceEach ((a, acc) ∷ m) h = elim (Bool-cases (is_empty a)) [
  | inl e ↦ rw e (named_accounts-OnceEach m h.1)
  | inr e ↦ rw e (lookup-named_accounts a m e ∙ h.0, named_accounts-OnceEach m h.1)
]

get_latest_height-set_tip :
    (height : ℕ) (s : Store) → ltb 0 height ≡ true → get_latest_height (set_tip height s) ≡ height
unfolding get_latest_height
get_latest_height-set_tip height s h = rw h refl

taken_in-export_backup :
    (now earlier max_blocks : ℕ) (addr : Text) (s t : Store)
    → IsNormal s
    → OnceEach s.accounts
    → is_empty (normalize_addr addr) ≡ false
    → get_account addr (taken_in now true (export_backup earlier max_blocks s) t)
      ≡ get_or (lookup (normalize_addr addr) s.accounts) (get_account addr t)
unfolding export_backup
taken_in-export_backup now earlier max_blocks addr s t normal once named =
    let snap = export_backup earlier max_blocks s in
    accounts_decide addr (taken_in now true snap t) (restore_all true snap.accounts t).0
      (taken_in-accounts now true snap t)
    ∙ (restore_all_forced snap.accounts addr t (named_accounts-AllNormal s.accounts normal)
          (named_accounts-OnceEach s.accounts once)
        ∙ ap (λ o. get_or o (get_account addr t))
            (lookup-named_accounts (normalize_addr addr) s.accounts named))

-- A forced import, on a node of the same chain id, of what another node exported: an address that
-- the exporter holds an account for has that account, any other keeps the importer's; the tip is
-- the exporter's, if it has a block; and the supply buckets stay as they were, so what
-- the exporter has minted is not taken over. The exporter's accounts are under normal keys, each
-- once, and the address is not blank.
pub import_full_snapshot-export_backup :
    (now earlier max_blocks : ℕ) (addr : Text) (s t : Store)
    → IsNormal s
    → OnceEach s.accounts
    → is_empty (normalize_addr addr) ≡ false
    → ltb 0 (get_latest_height s) ≡ true
    → other_chain (export_backup earlier max_blocks s) t ≡ false
    → (get_account addr
          (import_full_snapshot now (some (export_backup earlier max_blocks s)) true t).0
        ≡ get_or (lookup (normalize_addr addr) s.accounts) (get_account addr t))
      × ((get_latest_height
              (import_full_snapshot now (some (export_backup earlier max_blocks s)) true t).0
            ≡ get_latest_height s)
          × ((import_full_snapshot now (some (export_backup earlier max_blocks s)) true t).0.buckets
              ≡ t.buckets))
unfolding taken_in export_backup
import_full_snapshot-export_backup now earlier max_blocks addr s t normal once named tall chain =
    let snap = export_backup earlier max_blocks s in
    let is =
      import_is now snap true t ∙ ap (λ c. if c then t else taken_in now true snap t) chain in
    let restored = (restore_accounts now true snap t).0 in
    (
      ap (get_account addr) is
          ∙ taken_in-export_backup now earlier max_blocks addr s t normal once named,
      (
        ap get_latest_height is
            ∙ get_latest_height-set_tip (get_latest_height s)
                (save_all snap.recent_blocks restored).0 tall,
        ap (λ (x : Store). x.buckets) is ∙ taken_in-buckets now true snap t,
      ),
    )
