-- ===== src/Consensus/Producer.antt =====
-- internal/consensus/producer.go: `trySeal`, one tick of the legacy block producer.
pub mod Ticks
use east_validator.Prelude.{
  ℕ, ◌-◌, Bool, true, false, not, ◌&&◌, List, [], ◌∷◌, ◌++◌, Option, none, some, ltb, if◌then◌else◌,
}
use east_validator.Prelude.Int.{inc64, lt64}
use east_validator.Prelude.Text.{Text, codes, is_empty}
use east_validator.Crypto.{Crypto, address_from_private_key}
use east_validator.Tx.{Transaction}
use east_validator.Mempool.{Mempool, add_all}
use east_validator.Mempool
use east_validator.State.{Store, BlockHeader}
use east_validator.State.Blocks.{get_latest_height}
use east_validator.Consensus.Leader.{LeaderSchedule, is_local_leader}
use east_validator.Consensus.Seal.{SealResult, seal_block_with_txs}
use east_validator.Errors.{Result, ok, err, or_else}

pub record Producer : Type 0 where
  pub interval : ℕ
  pub max_txs : ℕ
  pub last_external : Option ℕ
  pub leader : Option LeaderSchedule
  pub pool : Option Mempool
  pub store : Store
  pub announced : List (BlockHeader × List Transaction)
  pub has_p2p : Bool

unfoldable pub set_max_txs_per_block : ℕ → Producer → Producer
set_max_txs_per_block n p = if lt64 0 n then record p { max_txs = n } else p

unfoldable pub notify_external_proposal : ℕ → Producer → Producer
notify_external_proposal now p = record p { last_external = some now }

-- `time.Since(zero time) < interval` is false.
unfoldable pub is_recent : ℕ → Producer → Bool
is_recent now p = elim (p.last_external) [ none ↦ false | some last ↦ ltb (now - last) p.interval ]

unfoldable pub produces : ℕ → ℕ → Option LeaderSchedule → Store → Store × Bool
produces now height none s = (s, true)
produces now height (some l) s = is_local_leader now height l s

abbrev default_proposer : Text
default_proposer = codes "0x0000000000000000000000000000000000000001"

module _ (lib : Crypto) where
  -- The proposer's address from the environment's address and key.
  unfoldable pub proposer_identity : Text → Text → Text
  proposer_identity key address =
      let derived =
        if is_empty address && not (is_empty key)
        then or_else (address_from_private_key lib key) []
        else address in
      if is_empty derived then default_proposer else derived

  abbrev pub take_pool : ℕ → Option Mempool → Option Mempool × List Transaction
  take_pool limit none = (none, [])
  take_pool limit (some q) = let (rest, txs) = Mempool.take limit q in (some rest, txs)

  abbrev pub return_pool : Text → ℕ → List Transaction → Option Mempool → Store → Option Mempool
  return_pool env now txs none s = none
  return_pool env now txs (some q) s = some (add_all lib env now txs q s)

  unfoldable pub sealed_producer :
      Text → ℕ → List Transaction → Store × Result SealResult → Producer → Producer
  sealed_producer env now txs (s, err e) p = record p {
    store = s;
    pool = return_pool env now txs p.pool s;
  }
  sealed_producer env now txs (s, ok r) p = record p {
    store = s;
    announced = if p.has_p2p then p.announced ++ (r.header, r.txs) ∷ [] else p.announced;
  }

  -- `key` and `address` are the sealer's environment, `env` the oracle's address.
  unfoldable pub try_seal : Text → Text → Text → ℕ → Producer → Producer
  unfolding produces sealed_producer proposer_identity is_recent
  try_seal env key address now p =
      let (looked, may) = produces now (inc64 (get_latest_height p.store)) p.leader p.store in
      let (pool', txs) = take_pool p.max_txs p.pool in
      let ready : Producer = record p { store = looked; pool = pool' } in
      if is_recent now p
      then p
      else if may
      then sealed_producer env now txs
          (seal_block_with_txs lib key (proposer_identity key address) now txs looked) ready
      else record p { store = looked }
