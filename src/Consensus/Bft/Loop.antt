-- ===== src/Consensus/Bft/Loop.antt =====
-- bft.go: the engine's own goroutine, cut where it releases the lock to wait: the steps of
-- `runPropose`, `runPrevote` and `runPrecommit`, solo sealing and the pace between blocks. The
-- height and round that a step is called with were read earlier and may be out of date.
use east_validator.Prelude.{
  ℕ, ◌-◌, Bool, true, not, ◌&&◌, ◌||◌, List, [], ◌∷◌, ◌++◌, map, Option, none, some, length, ltb,
  leb, ◌==◌, if◌then◌else◌,
}
use east_validator.Prelude.Int.{lt64, inc64, minus_one32}
use east_validator.Prelude.Text.{Text, codes, is_empty}
use east_validator.Crypto.{Crypto}
use east_validator.Tx.{Transaction}
use east_validator.Mempool.{Mempool, add_all}
use east_validator.Mempool
use east_validator.State.{Store}
use east_validator.State.Blocks.{get_latest_height}
use east_validator.Consensus.Vote.{precommit, Proposal, sign_proposal_bft}
use east_validator.Consensus.Leader.{LeaderSchedule, is_local_leader}
use east_validator.Consensus.Seal.{
  SealResult, recompute_merkle_root, recompute_block_hash, expected_prev, prefixed_hash,
  seal_block_with_txs,
}
use east_validator.Consensus.Bft.{
  new_height_step, propose_step, prevote_step, precommit_step, Engine, Node, proposal_msg,
  block_announce, commit_callback, with_engine, publish, next_round, advance_height, broadcast_vote,
  enter_prevote,
}
use east_validator.Consensus.Bft.Finalize.{is_step}
use east_validator.Errors.{Result, ok, err, ◌>>◌, guard, height_mismatch}

-- Milliseconds. BFT_TX_MIN_INTERVAL_MS, if it is a number from 500 on, replaces the three seconds.
unfoldable pub fast_interval : Option ℕ → ℕ
fast_interval none = 3000
fast_interval (some n) = if leb 500 n then n else 3000

unfoldable pub pace_needed : ℕ → Option ℕ → ℕ → ℕ
unfolding fast_interval
pace_needed min_block env pool_size =
    if ltb 0 pool_size then fast_interval env else if lt64 0 min_block then min_block else 120000

-- Whether one poll of waitBlockInterval ends the wait.
unfoldable pub pace_released : ℕ → Option ℕ → ℕ → Option ℕ → ℕ → Bool
unfolding pace_needed
pace_released min_block env pool_size none now = true
pace_released min_block env pool_size (some last) now =
    leb (pace_needed min_block env pool_size) (now - last)

-- `maxTxs` from the pool, when there is one.
unfoldable pub take_txs : ℕ → Node → Node × List Transaction
take_txs limit n = elim (n.pool) [
  | none ↦ (n, [])
  | some p ↦ let (rest, txs) = Mempool.take limit p in (record n { pool = some rest }, txs)
]

abbrev count_registered : Option LeaderSchedule → ℕ
count_registered none = 0
count_registered (some l) = length l.validators

-- Whether runPropose seals alone: no schedule, or at most one validator.
unfoldable pub seals_alone : Option LeaderSchedule → Bool
seals_alone l = leb (count_registered l) 1

unfoldable pub leads : ℕ → ℕ → Option LeaderSchedule → Store → Store × Bool
leads now height none s = (s, true)
leads now height (some l) s = is_local_leader now height l s

-- What runPropose clears on entry.
unfoldable pub start_round : Engine → Engine
start_round e = record e {
  step = propose_step;
  proposal = none;
  prevotes = [];
  precommits = [];
  pending_txs = [];
}

unfoldable pub adopt_own : Proposal → List Transaction → Engine → Engine
adopt_own p txs e = record e {
  proposal = some p;
  pending_txs = txs;
  valid_hash = p.block_hash;
  valid_round = p.round;
}

abbrev pub solo_proposer : Text → Text
solo_proposer local =
    if is_empty local then codes "0x0000000000000000000000000000000000000001" else local

-- The first critical section of runPropose, and the schedule's look-up of the jails in it.
unfoldable pub enter_propose : ℕ → ℕ → Node → Node
unfolding start_round leads
enter_propose now height n =
    let (looked, is_leader) = leads now height n.leader n.store in
    if is_step n.engine.step new_height_step || is_step n.engine.step propose_step
    then record n { engine = start_round n.engine; store = looked }
    else n

-- The block of soloSeal goes out to the peers and to the commit callback.
unfoldable pub tell_sealed : SealResult → Node → Node
tell_sealed sealed n =
    let sent = publish (block_announce sealed.header sealed.txs) n in
    if sent.has_callback
    then record sent { out = sent.out ++ commit_callback sealed.header sealed.txs ∷ [] }
    else sent

module _ (lib : Crypto) where
  -- `env` is the oracle's address, which pool checks read.
  unfoldable pub return_txs : Text → ℕ → List Transaction → Node → Node
  return_txs env now txs n = elim (n.pool) [
    | none ↦ n
    | some p ↦ record n { pool = some (add_all lib env now txs p n.store) }
  ]

  unfoldable pub own_proposal : ℕ → ℕ → ℕ → Text → Text → List Transaction → Proposal
  own_proposal height round ts prev local txs =
      let tx_hashes = map (prefixed_hash lib) txs in
      let merkle = recompute_merkle_root lib tx_hashes in
      record {
        height = height;
        round = round;
        block_hash = recompute_block_hash lib height prev merkle ts local;
        prev_hash = prev;
        merkle_root = merkle;
        timestamp = ts;
        proposer = local;
        tx_hashes = tx_hashes;
        txs = txs;
        pol_round = minus_one32;
        signature = [];
      }

  unfoldable pub broadcast_proposal : Text → ℕ → List Transaction → Result Proposal → Node → Node
  unfolding adopt_own return_txs
  broadcast_proposal env now txs (err e) n = return_txs env now txs n
  broadcast_proposal env now txs (ok p) n =
      publish (proposal_msg p) (with_engine (adopt_own p txs n.engine) n)

  unfoldable pub build_on : Text → ℕ → ℕ → ℕ → Result Text → Node → Node
  unfolding broadcast_proposal take_txs own_proposal
  build_on env now height round (err e) n = n
  build_on env now height round (ok prev) n =
      let (rest, txs) = take_txs n.engine.max_txs n in
      broadcast_proposal env now txs
        (sign_proposal_bft lib (own_proposal height round now prev n.engine.local_addr txs)
          n.engine.priv_key)
        rest

  unfoldable pub build_and_broadcast_proposal : Text → ℕ → ℕ → ℕ → Node → Node
  unfolding build_on
  build_and_broadcast_proposal env now height round n =
      build_on env now height round
        (do
          guard (height == inc64 (get_latest_height n.store)) height_mismatch
          expected_prev n.store)
        n

  unfoldable pub solo_sealed : Text → ℕ → List Transaction → Store × Result SealResult → Node → Node
  unfolding return_txs tell_sealed
  solo_sealed env now txs (s, err e) n = return_txs env now txs (record n { store = s })
  solo_sealed env now txs (s, ok sealed) n =
      let marked : Node = record n {
        store = s;
        engine = record n.engine { last_commit_at = some now };
      } in
      let told = tell_sealed sealed marked in with_engine (advance_height told.engine) told

  unfoldable pub solo_seal : Text → ℕ → Node → Node
  unfolding solo_sealed take_txs
  solo_seal env now n =
      let (rest, txs) = take_txs n.engine.max_txs n in
      solo_sealed env now txs
        (seal_block_with_txs lib n.engine.priv_key (solo_proposer n.engine.local_addr) now txs
          rest.store)
        rest

  -- runPropose from the end of the pace to the wait for a proposal, with nothing in between.
  unfoldable pub run_propose : Text → ℕ → ℕ → ℕ → Node → Node
  unfolding start_round seals_alone leads solo_seal build_and_broadcast_proposal
  run_propose env now height round n =
      let started = with_engine (start_round n.engine) n in
      let (looked, is_leader) = leads now height n.leader n.store in
      let ready : Node = record started { store = looked } in
      if is_step n.engine.step new_height_step || is_step n.engine.step propose_step
      then (if seals_alone n.leader
          then solo_seal env now ready
          else if is_leader && not (is_empty n.engine.priv_key)
          then build_and_broadcast_proposal env now height round ready
          else ready)
      else n

  -- The end of runPropose: a proposal has come, or the time is up.
  unfoldable pub end_propose : ℕ → Node → Node
  end_propose now n = if is_step n.engine.step propose_step then enter_prevote lib now n else n

  -- The time of runPrevote is up.
  unfoldable pub end_prevote : ℕ → Node → Node
  end_prevote now n =
      if is_step n.engine.step prevote_step
      then broadcast_vote lib now precommit []
          (with_engine (record n.engine { step = precommit_step }) n)
      else n

  -- The time of runPrecommit is up.
  unfoldable pub end_precommit : Node → Node
  end_precommit n =
      if is_step n.engine.step precommit_step then with_engine (next_round n.engine) n else n

  -- The start of `loop`: the engine takes the height above the tip.
  unfoldable pub align_to_tip : Node → Node
  align_to_tip n =
      with_engine
        (record n.engine {
          height = inc64 (get_latest_height n.store);
          round = 0;
          step = new_height_step;
        })
        n
