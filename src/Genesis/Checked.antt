-- ===== src/Genesis/Checked.antt =====
-- genesis.go: what a genesis file has that passes Validate.
use east_validator.Prelude.{ℕ, ◌≡◌, false, List, [], ◌∷◌, arith, All, inl, inr}
use east_validator.Prelude.Int.{lt64, ◌+64◌}
use east_validator.Genesis.{Bucket, Genesis, east_chain_id, total_max_supply, sum_caps, validate}
use east_validator.Errors.{ok, Result-cases}

-- A bucket whose amounts are not negative, with what is minted within the cap.
abbrev pub IsFair : Bucket → Type 0
IsFair b = (lt64 b.cap 0 ≡ false) × (lt64 b.minted 0 ≡ false) × (lt64 b.cap b.minted ≡ false)

sum_caps-IsFair : (sum : ℕ) (bs : List Bucket) {r : ℕ} → sum_caps sum bs ≡ ok r → All IsFair bs
unfolding sum_caps
sum_caps-IsFair sum [] h = tt
sum_caps-IsFair sum (b ∷ bs) {r} h =
    let fair : IsFair b × (sum_caps (sum +64 b.cap) bs ≡ ok r) = ground (arith, h) in
    (fair.0, sum_caps-IsFair (sum +64 b.cap) bs fair.1)

-- A genesis that passes Validate is of this chain and of the fixed supply, every bucket has amounts
-- that are not negative and has minted no more than its cap, and a validator stakes no less than a
-- full node. Only the chain's number and the two stakes may be changed by the call.
pub validate_sound :
    (g g' : Genesis)
    → validate g ≡ ok g'
    → (g'.numeric_chain_id ≡ east_chain_id)
      × (g'.max_supply ≡ total_max_supply)
      × All IsFair g'.buckets
      × (lt64 g'.min_validator_stake g'.min_fullnode_stake ≡ false)
      × (g' ≡ record g {
        numeric_chain_id = g'.numeric_chain_id;
        min_validator_stake = g'.min_validator_stake;
        min_fullnode_stake = g'.min_fullnode_stake;
      })
unfolding validate
validate_sound g g' h = elim (Result-cases (sum_caps 0 g.buckets)) [
  | inl (sum, e) ↦ ground (arith, h, e, sum_caps-IsFair 0 g.buckets e)
  | inr (x, e) ↦ ground (arith, h, e)
]
