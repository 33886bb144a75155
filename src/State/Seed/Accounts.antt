-- ===== src/State/Seed/Accounts.antt =====
-- state.go: what seeding an account leaves alone.
use east_validator.Prelude.{ℕ, ◌≡◌, refl, ap, ◌∙◌, true, Bool-cases, inl, inr, if◌then◌else◌}
use east_validator.Prelude.Text.{Text, text_eq, text_eq_iff}
use east_validator.State.{Account, Store, normalize_addr}
use east_validator.State.Accounts.{get_account, get_account_txn, set_account_txn}
use east_validator.State.Accounts.Lookup.{IsNormal, get_account_txn-normal, get_account-set}
use east_validator.State.Seed.{
  SeedMode, balance_only, merge_max, overwrite, seed_account, seed_mode, seeded,
}

seeded_nonce :
    (m : SeedMode) (balance staked pending : ℕ) (acc : Account)
    → (seeded m balance staked pending acc).nonce ≡ acc.nonce
unfolding seeded
seeded_nonce balance_only b s p acc = refl
seeded_nonce merge_max b s p acc = refl
seeded_nonce overwrite b s p acc = refl

seeded_local :
    (m : SeedMode) (addr other : Text) (balance staked pending : ℕ) (s : Store)
    → IsNormal s
    → ((get_account other
          (set_account_txn addr (seeded m balance staked pending (get_account_txn addr s)) s)).nonce
        ≡ (get_account other s).nonce)
      × (get_account other
            (set_account_txn addr (seeded m balance staked pending (get_account_txn addr s)) s)
          ≡ (if text_eq (normalize_addr addr) (normalize_addr other)
              then seeded m balance staked pending (get_account addr s)
              else get_account other s))
seeded_local m addr other balance staked pending s n =
    let result =
      get_account-set addr other (seeded m balance staked pending (get_account addr s)) s in
    let same : (text_eq (normalize_addr addr) (normalize_addr other) ≡ true)
        → get_account addr s ≡ get_account other s =
      λ e.
        unfold get_account in rw ((text_eq_iff (normalize_addr addr) (normalize_addr other)).0 e) in
    rw (get_account_txn-normal addr s n) (
      ap (λ (a : Account). a.nonce) result
          ∙ elim (Bool-cases (text_eq (normalize_addr addr) (normalize_addr other))) [
            | inl e ↦ rw e (
                seeded_nonce m balance staked pending (get_account addr s)
                ∙ ap (λ (a : Account). a.nonce) (same e))
            | inr e ↦ rw e refl
          ],
      result,
    )

-- In a store without legacy keys, seeding an account, in any mode, keeps the nonce of every account,
-- changes the named one as the mode says, whatever its spelling, and leaves every other as it was.
pub seed_account_local :
    (addr other : Text) (balance staked pending : ℕ) (mode : Text) (s : Store)
    → IsNormal s
    → ((get_account other (seed_account addr balance staked pending mode s)).nonce
        ≡ (get_account other s).nonce)
      × (get_account other (seed_account addr balance staked pending mode s) ≡ (
          if text_eq (normalize_addr addr) (normalize_addr other)
          then seeded (seed_mode mode) balance staked pending (get_account addr s)
          else get_account other s))
unfolding seed_account
seed_account_local addr other balance staked pending mode s n =
    seeded_local (seed_mode mode) addr other balance staked pending s n
