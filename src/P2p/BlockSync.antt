-- ===== src/P2p/BlockSync.antt =====
-- internal/p2p/block_provider.go and sync.go: serving a range of blocks to a peer.
pub mod Range
use east_validator.Prelude.{ℕ, zero, suc, ◌+◌, ◌-◌, ◌%◌, not, List, [], ◌∷◌, ltb, if◌then◌else◌}
use east_validator.Prelude.Int.{two64}
use east_validator.Prelude.Text.{Text}
use east_validator.State.{Store, BlockHeader}
use east_validator.State.Blocks.{get_block}
use east_validator.Errors.{Result, ok, err, ◌>>◌, guard, invalid_range}

pub record BlockAnnounce : Type 0 where
  pub height : ℕ
  pub hash : Text
  pub prev_hash : Text
  pub timestamp : ℕ
  pub proposer : Text
  pub signature : Text
  pub tx_hashes : List Text

unfoldable pub announce_of : BlockHeader → BlockAnnounce
announce_of h = record {
  height = h.height;
  hash = h.hash;
  prev_hash = h.prev_hash;
  timestamp = h.timestamp;
  proposer = h.proposer;
  signature = h.signature;
  tx_hashes = h.tx_hashes;
}

-- The loop over the heights: it stops at the first block that is missing.
unfoldable pub announces_from : ℕ → ℕ → Store → List BlockAnnounce
unfolding announce_of
announces_from zero height s = []
announces_from (suc count) height s =
    let rest = announces_from count (suc height) s in
    elim (get_block height s) [ ok blk ↦ announce_of blk ∷ rest | err e ↦ [] ]

unfoldable pub get_block_range : ℕ → ℕ → Store → Result (List BlockAnnounce)
unfolding announces_from
get_block_range from to s = do
  guard (not (ltb to from)) invalid_range
  ok (announces_from (to - from + 1) from s)

abbrev pub max_blocks_per_response : ℕ
max_blocks_per_response = 50

-- The test wraps as uint64 does.
unfoldable pub cap_range : ℕ → ℕ → ℕ
cap_range from to =
    if ltb max_blocks_per_response ((to - from + 1) % two64)
    then from + max_blocks_per_response - 1
    else to

-- The handler that RegisterSyncHandler installs, past the decoding of the request.
unfoldable pub serve_sync : ℕ → ℕ → Store → Result (List BlockAnnounce)
unfolding get_block_range cap_range
serve_sync from to s = do
  guard (not (ltb to from)) invalid_range
  get_block_range from (cap_range from to) s
