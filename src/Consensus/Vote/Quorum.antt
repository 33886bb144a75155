-- ===== src/Consensus/Vote/Quorum.antt =====
-- Quorums: what `QuorumSize` is good for.
use east_validator.Prelude.{ℕ, zero, suc, ◌+◌, ◌-◌, ◌*◌, ◌/◌, ◌≤◌, ◌<◌, arith}
use east_validator.Consensus.Vote.{quorum_size}

-- The most validators of `n` that may be faulty: fewer than a third.
abbrev pub max_faulty : ℕ → ℕ
max_faulty n = (n - 1) / 3

-- Of any set of validators a quorum is more than two thirds, it is not more than all of them, the
-- validators that are not faulty make one up, and two quorums have more validators in common than
-- may be faulty.
pub quorum_size_safe_live :
    (n : ℕ)
    → 0 < n
    → (2 * n < 3 * quorum_size n)
      × (quorum_size n ≤ n)
      × (quorum_size n ≤ n - max_faulty n)
      × (n + max_faulty n < quorum_size n + quorum_size n)
unfolding quorum_size
quorum_size_safe_live zero h = absurd (omega arith)
quorum_size_safe_live (suc zero) h = (omega arith, omega arith, omega arith, omega arith)
quorum_size_safe_live (suc (suc n)) h = (omega arith, omega arith, omega arith, omega arith)
