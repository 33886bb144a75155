-- ===== src/Sync/Archive.antt =====
-- internal/sync/archive.go: headers from the archive. Its counters are only logged.
pub mod Vetting
pub mod Enough
use east_validator.Prelude.{
  ℕ, zero, suc, ◌+◌, ◌-◌, ◌%◌, Bool, true, false, not, ◌&&◌, ◌||◌, List, [], ◌∷◌, Option, length,
  ltb, leb, if◌then◌else◌,
}
use east_validator.Prelude.Int.{two64, lt64}
use east_validator.Prelude.Text.{Text, codes, is_empty}
use east_validator.Crypto.{Crypto, build_chain_signing_message, verify_eip191}
use east_validator.Errors.{
  Result, ok, err, ◌>>=◌, ◌>>◌, guard, archive_url_empty, archive_error, archive_empty,
}
use east_validator.State.{BlockHeader, Store}
use east_validator.State.Blocks.{get_latest_height}
use east_validator.Sync.{HttpReply, read_reply, Outcome, finished, failed, unfinished, save_above}

pub record ArchiveBlock : Type 0 where
  pub success : Bool
  pub height : ℕ
  pub hash : Text
  pub previous_hash : Text
  pub merkle_root : Text
  pub validator : Text
  pub timestamp : ℕ
  pub signature : Text
  pub transactions : List Text

pub record ArchiveRangeResponse : Type 0 where
  pub blocks : List ArchiveBlock
  pub error : Text

-- `height` is an int64.
pub record HeightResponse : Type 0 where
  pub height : ℕ
  pub error : Text

unfoldable pub fetch_archive_height : Option (HttpReply HeightResponse) → Result ℕ
fetch_archive_height reply = do
  hr ← read_reply reply
  guard (is_empty hr.error) archive_error
  guard (not (lt64 hr.height 0)) archive_empty
  ok hr.height

unfoldable pub fetch_archive_range :
    Option (HttpReply ArchiveRangeResponse) → Result (List ArchiveBlock)
fetch_archive_range reply = do
  rr ← read_reply reply
  guard (is_empty rr.error) archive_error
  ok rr.blocks

abbrev pub archive_range_size : ℕ
archive_range_size = 500

named_hashes : List Text → List Text
named_hashes [] = []
named_hashes (h ∷ hs) = let rest = named_hashes hs in if is_empty h then rest else h ∷ rest

unfoldable pub header_of : ArchiveBlock → BlockHeader
unfolding named_hashes
header_of b = record {
  height = b.height;
  hash = b.hash;
  prev_hash = b.previous_hash;
  state_root = codes "";
  tx_hashes = named_hashes b.transactions;
  timestamp = b.timestamp;
  proposer = b.validator;
  tx_count = length (named_hashes b.transactions);
  signature = b.signature;
  last_commit_round = 0;
  last_commit_votes = 0;
}

abbrev pub verified : Result Bool → Bool
verified (ok b) = b
verified (err e) = false

-- `to`, the last height of the chunk at `from`.
abbrev pub chunk_end : ℕ → ℕ → ℕ
chunk_end from target =
    let to = (from + archive_range_size - 1) % two64 in if ltb target to then target else to

module _ (lib : Crypto) where
  -- The tests that pass a block over: no data, no signature, a signature that does not check.
  unfoldable pub is_accepted : Text → ArchiveBlock → Bool
  is_accepted expected_signer b =
      (b.success && not (is_empty b.hash))
      && (is_empty expected_signer
          || (not (is_empty b.signature)
              && verified (
                  verify_eip191 lib (build_chain_signing_message b.height b.hash) b.signature
                    expected_signer)))

  unfoldable pub take_blocks : Text → List ArchiveBlock → Store → Store
  unfolding is_accepted save_above header_of
  take_blocks expected_signer [] s = s
  take_blocks expected_signer (b ∷ bs) s =
      take_blocks expected_signer bs
        (if is_accepted expected_signer b then save_above (header_of b) s else s)

  module _ (fetch : ℕ → ℕ → Option (HttpReply ArchiveRangeResponse)) (expected_signer : Text) where
    -- The loop over the chunks.
    unfoldable pub sync_chunks : ℕ → ℕ → ℕ → Store → Store × Outcome
    unfolding fetch_archive_range take_blocks
    sync_chunks zero from target s = if leb from target then (s, unfinished) else (s, finished)
    sync_chunks (suc fuel) from target s =
        if leb from target
        then (elim (fetch_archive_range (fetch from (chunk_end from target))) [
          | ok blocks ↦
              sync_chunks fuel ((from + archive_range_size) % two64) target
                (take_blocks expected_signer blocks s)
          | err e ↦ (s, failed e)
        ])
        else (s, finished)

    unfoldable pub sync_from_archive : ℕ → Text → ℕ → Store → Store × Outcome
    unfolding sync_chunks
    sync_from_archive fuel base_url target s =
        if is_empty base_url
        then (s, failed archive_url_empty)
        else (if leb target (get_latest_height s)
            then (s, finished)
            else sync_chunks fuel ((get_latest_height s + 1) % two64) target s)
