-- ===== src/Consensus/Leader/Rotation.antt =====
-- leader.go: the rotation of the proposer over the eligible validators.
use native.Mathlib.Nat.{mul-add-mod_self_right, mod-eq_of_lt}
use east_validator.Prelude.{
  ℕ, zero, suc, ◌+◌, ◌*◌, ◌%◌, ◌<◌, ◌≡◌, refl, ◌∙◌, List, [], ◌∷◌, some, arith, length, get_elem?,
}
use east_validator.Prelude.Text.{Text}
use east_validator.Consensus.Leader.{leader_of}

get_elem?-length :
    {A : Type 0} (xs : List A) (i : ℕ) → i < length xs → (a : A) × (get_elem? xs i ≡ some a)
get_elem?-length [] i lt = ground arith
get_elem?-length (x ∷ xs) zero lt = (x, refl)
get_elem?-length (x ∷ xs) (suc i) lt = get_elem?-length xs i (omega arith)

mod-turn : (n k i : ℕ) → i < n → (k * n + i) % n ≡ i
mod-turn n k i lt = mul-add-mod_self_right k n i ∙ mod-eq_of_lt lt

-- The leader at a height `k * n + i` is the eligible validator number `i` of the `n` there are:
-- each of them leads once in every `n` heights.
pub leader_of_turn :
    (local : Text) (k i : ℕ) (vs : List Text) (a : Text)
    → get_elem? vs i ≡ some a
    → i < length vs
    → leader_of local (k * length vs + i) vs ≡ a
unfolding leader_of
leader_of_turn local k i [] a found lt = ground arith
leader_of_turn local k zero (v ∷ []) a found lt = ground (arith, found)
leader_of_turn local k (suc i) (v ∷ []) a found lt = ground arith
leader_of_turn local k i (v ∷ w ∷ vs) a found lt =
    rw (mod-turn (length (v ∷ w ∷ vs)) k i lt) (rw found refl)
