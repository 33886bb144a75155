-- ===== src/Mempool.antt =====
-- internal/mempool/mempool.go: the pool of uncommitted transactions. The maps `byHash` and `seen`
-- are association lists; the mutex makes each operation one step. `now` is the wall clock.
pub mod Invariant
pub mod Order
use east_validator.Prelude.{
  ℕ, zero, suc, ◌+◌, ◌-◌, ◌*◌, ◌/◌, ◌≡◌, refl, Bool, true, false, not, ◌&&◌, ◌||◌, List, [], ◌∷◌,
  ◌++◌, Option, none, some, arith, length, drop, ltb, leb, if◌then◌else◌,
}
use east_validator.Prelude.Int.{lt64, ◌*64◌, div64}
use east_validator.Prelude.Text.{Text, codes, text_eq, is_empty}
use east_validator.Prelude.Maps.{lookup, insert, delete, text_key}
use east_validator.Crypto.{Crypto}
use east_validator.Tx.{
  Transaction, TxType, transfer, request_unstake, claim_unstake, stake, claim_mining, unknown,
  tx_hash, validate_basic,
}
use east_validator.State.{Account, Store}
use east_validator.State.Accounts.{get_account, bucket_remaining}
use east_validator.State.Roster.{member}
use east_validator.Errors.{
  Error, Result, ok, err, ◌>>=◌, ◌>>◌, guard, nil_transaction, invalid_nonce, insufficient_balance,
  insufficient_staked, insufficient_pending, mining_bucket_full, tx_too_large, already_seen,
  mempool_full,
}

-- The ints of a configuration; `cache_size` is not negative (pruning panics if it is).
pub record Config : Type 0 where
  pub max_txs : ℕ
  pub max_tx_bytes : ℕ
  pub cache_size : ℕ

abbrev pub default_config : Config
default_config = record { max_txs = 5000; max_tx_bytes = 64 * 1024; cache_size = 10000 }

pub record Mempool : Type 0 where
  pub cfg : Config
  pub order : List Text
  pub by_hash : List (Text × Transaction)
  pub seen : List (Text × ℕ)

unfoldable pub new : Config → Mempool
new cfg = record {
  cfg = if lt64 0 cfg.max_txs then cfg else default_config;
  order = [];
  by_hash = [];
  seen = [];
}

-- The `switch` of CheckTx.
unfoldable pub check_funds : TxType → Transaction → Account → Store → Result (Unit {0})
check_funds transfer t acc s = guard (not (lt64 acc.balance t.amount)) insufficient_balance
check_funds stake t acc s = guard (not (lt64 acc.balance t.amount)) insufficient_balance
check_funds request_unstake t acc s = guard (not (lt64 acc.staked t.amount)) insufficient_staked
check_funds claim_unstake t acc s =
    guard (not (lt64 acc.pending_unstake t.amount)) insufficient_pending
check_funds claim_mining t acc s = do
  rem ← bucket_remaining (codes "mining") s
  guard (not (lt64 rem t.amount)) mining_bucket_full
check_funds (unknown name) t acc s = ok tt

-- Entries that are in the pool, in the order of arrival.
unfoldable pub present : List (Text × Transaction) → List Text → List Transaction
present m [] = []
present m (h ∷ hs) = elim (lookup h m) [ none ↦ present m hs | some t ↦ t ∷ present m hs ]

-- The loop of Peek: at most `limit` of them.
first_present : ℕ → List (Text × Transaction) → List Text → List Transaction
first_present zero m hs = []
first_present (suc limit) m [] = []
first_present (suc limit) m (h ∷ hs) = elim (lookup h m) [
  | none ↦ first_present (suc limit) m hs
  | some t ↦ t ∷ first_present limit m hs
]

-- `limit` is an int; out of range it means all.
unfoldable pub peek : ℕ → Mempool → List Transaction
unfolding first_present
peek limit p =
    let n = length p.order in
    first_present (if not (lt64 0 limit) || ltb n limit then n else limit) p.by_hash p.order

pub record Taken : Type 0 where
  pub out : List Transaction
  pub remain : List Text
  pub by_hash : List (Text × Transaction)

-- The loop of Take: `room` is how many more may be taken.
unfoldable pub take_loop : ℕ → List (Text × Transaction) → List Text → Taken
take_loop room m [] = record { out = []; remain = []; by_hash = m }
take_loop zero m (h ∷ hs) =
    let rest = take_loop zero m hs in
    elim (lookup h m) [ none ↦ rest | some t ↦ record rest { remain = h ∷ rest.remain } ]
take_loop (suc room) m (h ∷ hs) =
    let skipped = take_loop (suc room) m hs in
    let rest = take_loop room (delete h m) hs in
    elim (lookup h m) [ none ↦ skipped | some t ↦ record rest { out = t ∷ rest.out } ]

unfoldable pub take : ℕ → Mempool → Mempool × List Transaction
take limit p =
    let taken = take_loop (if lt64 0 limit then limit else length p.order) p.by_hash p.order in
    (record p { order = taken.remain; by_hash = taken.by_hash }, taken.out)

unfoldable pub delete_all {ℓ} : {V : Type ℓ} → List Text → List (Text × V) → List (Text × V)
delete_all [] m = m
delete_all (h ∷ hs) m = delete_all hs (delete h m)

abbrev pub has_key {ℓ} : {V : Type ℓ} → Option V → Bool
has_key none = false
has_key (some v) = true

keep_others : List Text → List (Text × Transaction) → List Text → List Text
keep_others dropped m [] = []
keep_others dropped m (h ∷ hs) =
    if not (member h dropped) && has_key (lookup h m)
    then h ∷ keep_others dropped m hs
    else keep_others dropped m hs

unfoldable pub remove_by_hash : List Text → Mempool → Mempool
unfolding keep_others
remove_by_hash hashes p =
    let rest = delete_all hashes p.by_hash in
    record p { by_hash = rest; order = keep_others hashes rest p.order }

unfoldable pub size : Mempool → ℕ
size p = length p.by_hash

-- sort.Slice by time, oldest first.
unfoldable pub insert_by_time : Text × ℕ → List (Text × ℕ) → List (Text × ℕ)
insert_by_time e [] = e ∷ []
insert_by_time e (d ∷ ds) = if leb e.1 d.1 then e ∷ d ∷ ds else d ∷ insert_by_time e ds

unfoldable pub sort_by_time : List (Text × ℕ) → List (Text × ℕ)
unfolding insert_by_time
sort_by_time [] = []
sort_by_time (e ∷ es) = insert_by_time e (sort_by_time es)

abbrev pub first_keys : ℕ → List (Text × ℕ) → List Text
first_keys zero es = []
first_keys (suc n) [] = []
first_keys (suc n) (e ∷ es) = e.0 ∷ first_keys n es

unfoldable pub prune_seen : Config → List (Text × ℕ) → List (Text × ℕ)
unfolding sort_by_time delete_all
prune_seen cfg seen =
    let target = div64 (cfg.cache_size *64 3) 4 in
    let dropped = first_keys (length seen - target) (sort_by_time seen) in
    if leb (length seen) cfg.cache_size then seen else delete_all dropped seen

-- The insertion of Add, past the checks.
unfoldable pub insert_tx : ℕ → Text → Transaction → Mempool → Mempool
unfolding prune_seen
insert_tx now h t p = record p {
  by_hash = insert h t p.by_hash;
  order = p.order ++ h ∷ [];
  seen = prune_seen p.cfg (insert h now p.seen);
}

-- Add under the lock: the pool and what the call returns.
unfoldable pub add_locked : ℕ → Text → Transaction → Mempool → Mempool × Result Text
unfolding insert_tx
add_locked now h t p =
    if has_key (lookup h p.by_hash)
    then (p, ok h)
    else if has_key (lookup h p.seen)
    then (p, err already_seen)
    else if leb p.cfg.max_txs (length p.by_hash)
    then (p, err mempool_full)
    else (insert_tx now h t p, ok h)

module _ (lib : Crypto) where
  -- `t` may be nil. The result is the transaction after the call, which may stamp it.
  unfoldable pub check_tx : Text → ℕ → Option Transaction → Mempool → Store → Result Transaction
  check_tx env now none p s = err nil_transaction
  check_tx env now (some t) p s = do
    stamped ← validate_basic lib env now t
    let bytes = length stamped.from + length stamped.to + length stamped.signature
    guard
        (not (
          lt64 0 p.cfg.max_tx_bytes
          && not (is_empty (tx_hash lib stamped))
          && ltb p.cfg.max_tx_bytes bytes))
        tx_too_large
    let acc = get_account stamped.from s
    guard (not (leb stamped.nonce acc.nonce)) invalid_nonce
    check_funds stamped.type stamped acc s
    ok stamped

  abbrev pub add_checked : ℕ → Result Transaction → Mempool → Mempool × Result Text
  add_checked now (err e) p = (p, err e)
  add_checked now (ok t) p = add_locked now (tx_hash lib t) t p

  unfoldable pub add : Text → ℕ → Option Transaction → Mempool → Store → Mempool × Result Text
  unfolding check_tx add_locked
  add env now t p s = add_checked now (check_tx env now t p s) p

  -- `for _, t := range txs { _, _ = pool.Add(t) }`.
  unfoldable pub add_all : Text → ℕ → List Transaction → Mempool → Store → Mempool
  unfolding add
  add_all env now [] p s = p
  add_all env now (t ∷ ts) p s = add_all env now ts (add env now (some t) p s).0 s
