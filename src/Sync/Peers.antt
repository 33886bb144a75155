-- ===== src/Sync/Peers.antt =====
-- internal/sync/archive.go and internal/p2p/sync.go: headers from a peer.
pub mod Stale
pub mod Answers
pub mod Honest
use east_validator.Prelude.{
  ℕ, zero, suc, ◌+◌, ◌-◌, ◌%◌, Bool, not, List, [], ◌∷◌, Option, none, some, length, ltb, leb,
  if◌then◌else◌,
}
use east_validator.Prelude.Int.{two64}
use east_validator.Prelude.Text.{codes}
use east_validator.Errors.{Result, ok, err, ◌>>◌, guard, invalid_range, p2p_disabled, no_peers}
use east_validator.State.{BlockHeader, Store}
use east_validator.State.Blocks.{get_latest_height, save_block}
use east_validator.P2p.BlockSync.{BlockAnnounce, cap_range}
use east_validator.Sync.{Outcome, finished, failed, unfinished}

-- A peer: what the request of that number, for that range, is answered.
abbrev pub Peer : Type 0
Peer = ℕ → ℕ → ℕ → Result (List BlockAnnounce)

-- RequestBlocks.
unfoldable pub request_blocks : Peer → ℕ → ℕ → ℕ → Result (List BlockAnnounce)
unfolding cap_range
request_blocks peer call from to = do
  guard (not (ltb to from)) invalid_range
  peer call from (cap_range from to)

unfoldable pub header_of : BlockAnnounce → BlockHeader
header_of b = record {
  height = b.height;
  hash = b.hash;
  prev_hash = b.prev_hash;
  state_root = codes "";
  tx_hashes = b.tx_hashes;
  timestamp = b.timestamp;
  proposer = b.proposer;
  tx_count = length b.tx_hashes;
  signature = b.signature;
  last_commit_round = 0;
  last_commit_votes = 0;
}

-- The loop over one answer, which moves `from` past each block that it saves.
unfoldable pub take_announces : List BlockAnnounce → ℕ → Store → ℕ × Store
unfolding header_of
take_announces [] from s = (from, s)
take_announces (b ∷ bs) from s =
    if leb b.height (get_latest_height s)
    then take_announces bs from s
    else take_announces bs ((b.height + 1) % two64) (save_block (header_of b) s)

module _ (peer : Peer) where
  -- The loop over the requests.
  unfoldable pub catch_up : ℕ → ℕ → ℕ → ℕ → Store → Store × Outcome
  unfolding request_blocks take_announces
  catch_up zero call from target s = if leb from target then (s, unfinished) else (s, finished)
  catch_up (suc fuel) call from target s =
      if leb from target
      then (elim (request_blocks peer call from target) [
        | ok [] ↦ (s, finished)
        | ok (b ∷ bs) ↦
            let (next, after) = take_announces (b ∷ bs) from s in
            catch_up fuel (suc call) next target after
        | err e ↦ (s, failed e)
      ])
      else (s, finished)

abbrev ask_first : ℕ → List Peer → ℕ → Store → Store × Outcome
ask_first fuel [] target s = (s, failed no_peers)
ask_first fuel (peer ∷ peers) target s =
    catch_up peer fuel 0 ((get_latest_height s + 1) % two64) target s

abbrev ask_network : ℕ → Option (List Peer) → ℕ → Store → Store × Outcome
ask_network fuel none target s = (s, failed p2p_disabled)
ask_network fuel (some peers) target s = ask_first fuel peers target s

-- `none` is a node without p2p.
unfoldable pub sync_from_peers : ℕ → Option (List Peer) → ℕ → Store → Store × Outcome
unfolding catch_up
sync_from_peers fuel network target s =
    if leb target (get_latest_height s) then (s, finished) else ask_network fuel network target s
