-- ===== src/P2p/BlockSync/Range.antt =====
-- sync.go: what a peer is answered.
use east_validator.Prelude.{ℕ, zero, suc, ◌+◌, ◌-◌, ◌≤◌, ◌<◌, ◌≡◌, List, arith, length, inl, inr}
use east_validator.Prelude.Int.{two64}
use east_validator.State.{Store}
use east_validator.State.Blocks.{get_block}
use east_validator.Errors.{ok, Result-cases}
use east_validator.P2p.BlockSync.{
  BlockAnnounce, announces_from, get_block_range, cap_range, serve_sync,
}

announces_from_few : (count height : ℕ) (s : Store) → length (announces_from count height s) ≤ count
unfolding announces_from
announces_from_few zero height s = ground arith
announces_from_few (suc count) height s = elim (Result-cases (get_block height s)) [
  | inl (blk, e) ↦ rw (e, length) (omega (arith, announces_from_few count (suc height) s))
  | inr (x, e) ↦ rw (e, length) (ground arith)
]

-- A request for blocks whose last height is not the greatest uint64 is answered with at most fifty
-- blocks.
pub serve_sync_capped :
    (from to : ℕ) (s : Store) (blocks : List BlockAnnounce)
    → to + 1 < two64
    → serve_sync from to s ≡ ok blocks
    → length blocks ≤ 50
unfolding serve_sync get_block_range cap_range
serve_sync_capped from to s blocks fits served =
    ground (arith, served, announces_from_few (cap_range from to - from + 1) from s)
