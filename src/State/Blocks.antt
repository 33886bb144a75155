-- ===== src/State/Blocks.antt =====
-- state.go: block headers, transaction bodies and the chain's tip.
pub mod Pruning
use east_validator.Prelude.{
  ℕ, ◌-◌, not, ◌||◌, List, [], ◌∷◌, ◌++◌, Option, none, some, ltb, leb, if◌then◌else◌,
}
use east_validator.Prelude.Int.{lt64}
use east_validator.Prelude.Text.{Text, codes, to_lower, trim_space}
use east_validator.Prelude.Maps.{lookup, insert, text_key, nat_eq}
use east_validator.Crypto.{Crypto, trim_0x}
use east_validator.Tx.{Transaction, tx_hash}
use east_validator.Errors.{Result, or_fail, not_found}
use east_validator.State.{Store, BlockHeader, StoredTx}
use east_validator.State.Accounts.{get_or}

unfoldable pub save_block : BlockHeader → Store → Store
save_block h s = record s { blocks = insert h.height h s.blocks; latest_height = some h.height }

unfoldable pub get_latest_height : Store → ℕ
get_latest_height s = get_or s.latest_height 0

unfoldable pub get_block : ℕ → Store → Result BlockHeader
get_block height s = or_fail (lookup height s.blocks) not_found

-- `txIndexKey`, less its prefix.
unfoldable pub tx_index_key : Text → Text
tx_index_key hash = to_lower (trim_0x (trim_space hash))

unfoldable pub get_block_transactions : ℕ → Store → List StoredTx
get_block_transactions height s = get_or (lookup height s.block_txs) []

unfoldable pub get_transaction : Text → Store → Result StoredTx
get_transaction hash s = or_fail (lookup (tx_index_key hash) s.tx_index) not_found

-- The tip less `keep`, or nothing to prune. `keep` is an int.
unfoldable pub prune_cutoff : ℕ → ℕ → Option ℕ
prune_cutoff keep latest =
    if not (lt64 0 keep) || leb latest keep then none else some (latest - keep)

delete_below : ℕ → List (ℕ × BlockHeader) → List (ℕ × BlockHeader)
delete_below cutoff [] = []
delete_below cutoff ((height, h) ∷ rest) =
    if ltb height cutoff then delete_below cutoff rest else (height, h) ∷ delete_below cutoff rest

delete_to : Option ℕ → Store → Store
delete_to none s = s
delete_to (some cutoff) s = record s { blocks = delete_below cutoff s.blocks }

unfoldable pub prune_old_blocks : ℕ → Store → Store
unfolding delete_to delete_below
prune_old_blocks keep s = delete_to (prune_cutoff keep (get_latest_height s)) s

module _ (lib : Crypto) where
  stored : ℕ → Transaction → StoredTx
  stored height t = record { transaction = t; height = height; hash = codes "0x" ++ tx_hash lib t }

  -- The loop over the bodies; `none` is a nil pointer, which is skipped.
  index_txs : ℕ → List (Option Transaction) → List (Text × StoredTx) → List (Text × StoredTx)
  index_txs height [] index = index
  index_txs height (none ∷ txs) index = index_txs height txs index
  index_txs height (some t ∷ txs) index =
      let st = stored height t in index_txs height txs (insert (tx_index_key st.hash) st index)

  bodies : ℕ → List (Option Transaction) → List StoredTx
  bodies height [] = []
  bodies height (none ∷ txs) = bodies height txs
  bodies height (some t ∷ txs) = stored height t ∷ bodies height txs

  unfoldable pub save_block_with_txs : BlockHeader → List (Option Transaction) → Store → Store
  unfolding index_txs bodies stored
  save_block_with_txs h txs s =
      let saved = save_block h s in
      record saved {
        tx_index = index_txs h.height txs s.tx_index;
        block_txs = insert h.height (bodies h.height txs) s.block_txs;
      }
