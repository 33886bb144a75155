-- ===== src/Mempool/Order.antt =====
-- mempool.go: Take beside Peek, and Add after Take.
use east_validator.Prelude.{
  ℕ, zero, suc, ◌≤◌, ◌≡◌, refl, ◌∙◌, true, false, List, [], ◌∷◌, ◌++◌, none, some, arith, length,
  if◌then◌else◌,
}
use east_validator.Prelude.Int.{lt64}
use east_validator.Prelude.Text.{Text, text_eq_iff}
use east_validator.Prelude.Maps.{lookup, delete, lookup-delete, text_key}
use east_validator.Crypto.{Crypto}
use east_validator.Tx.{Transaction, tx_hash}
use east_validator.State.{Store}
use east_validator.State.Roster.{member}
use east_validator.Errors.{ok, err, already_seen}
use east_validator.Mempool.{
  Mempool, has_key, present, take_loop, take, first_present, peek, add_locked, check_tx, add,
}
use east_validator.Mempool.Invariant.{Distinct, Inv}

-- Deleting a key that the list does not have changes nothing that the list reads.
first_present-delete :
    (n : ℕ) (h : Text) (m : List (Text × Transaction)) (hs : List Text)
    → member h hs ≡ false
    → first_present n (delete h m) hs ≡ first_present n m hs
unfolding first_present member
first_present-delete zero h m hs fresh = refl
first_present-delete (suc n) h m [] fresh = refl
first_present-delete (suc n) h m (k ∷ hs) fresh = ground (
  arith,
  lookup-delete h k m,
  text_eq_iff k h,
  text_eq_iff h k,
  first_present-delete (suc n) h m hs,
  first_present-delete n h m hs,
)

take_loop-out :
    (n : ℕ) (m : List (Text × Transaction)) (hs : List Text)
    → Distinct hs
    → (take_loop n m hs).out ≡ first_present n m hs
unfolding take_loop first_present
take_loop-out zero m [] d = refl
take_loop-out (suc n) m [] d = refl
take_loop-out zero m (h ∷ hs) d = ground (arith, take_loop-out zero m hs d.1)
take_loop-out (suc n) m (h ∷ hs) d = ground (
  arith,
  take_loop-out (suc n) m hs d.1,
  take_loop-out n (delete h m) hs d.1,
  first_present-delete n h m hs d.0,
)

first_present-enough :
    (n : ℕ) (m : List (Text × Transaction)) (hs : List Text)
    → length hs ≤ n
    → first_present n m hs ≡ first_present (length hs) m hs
unfolding first_present
first_present-enough zero m [] le = refl
first_present-enough (suc n) m [] le = refl
first_present-enough zero m (h ∷ hs) le = ground arith
first_present-enough (suc n) m (h ∷ hs) le = ground (
  arith,
  first_present-enough (suc n) m hs,
  first_present-enough (suc (length hs)) m hs,
  first_present-enough n m hs,
)

take-out : (limit : ℕ) (p : Mempool) → Inv p → (take limit p).1 ≡ peek limit p
unfolding take peek
take-out limit p v =
    take_loop-out (if lt64 0 limit then limit else length p.order) p.by_hash p.order v.distinct
    ∙ ground (arith, first_present-enough limit p.by_hash p.order)

-- What the loop leaves in the map, at a key that is not in its list.
take_loop-other :
    (n : ℕ) (m : List (Text × Transaction)) (hs : List Text) (k : Text)
    → member k hs ≡ false
    → lookup k (take_loop n m hs).by_hash ≡ lookup k m
unfolding take_loop member
take_loop-other zero m [] k e = refl
take_loop-other (suc n) m [] k e = refl
take_loop-other zero m (h ∷ hs) k e = ground (arith, take_loop-other zero m hs k)
take_loop-other (suc n) m (h ∷ hs) k e = ground (
  arith,
  take_loop-other (suc n) m hs k,
  take_loop-other n (delete h m) hs k,
  lookup-delete h k m,
  text_eq_iff h k,
)

present-delete :
    (h : Text) (m : List (Text × Transaction)) (hs : List Text)
    → member h hs ≡ false
    → present (delete h m) hs ≡ present m hs
unfolding present member
present-delete h m [] fresh = refl
present-delete h m (k ∷ hs) fresh =
    ground (arith, lookup-delete h k m, text_eq_iff k h, text_eq_iff h k, present-delete h m hs)

take_loop-splits :
    (n : ℕ) (m : List (Text × Transaction)) (hs : List Text)
    → Distinct hs
    → present m hs
      ≡ (take_loop n m hs).out ++ present (take_loop n m hs).by_hash (take_loop n m hs).remain
unfolding take_loop present first_present
take_loop-splits zero m [] d = refl
take_loop-splits (suc n) m [] d = refl
take_loop-splits zero m (h ∷ hs) d = ground (
  arith,
  take_loop-splits zero m hs d.1,
  take_loop-other zero m hs h d.0,
  take_loop-out zero m hs d.1,
)
take_loop-splits (suc n) m (h ∷ hs) d = ground (
  arith,
  take_loop-splits (suc n) m hs d.1,
  take_loop-splits n (delete h m) hs d.1,
  present-delete h m hs d.0,
)

-- Take removes from a pool that keeps its invariant exactly the transactions that Peek shows for
-- the same limit, in the same order, and the transactions that are left in the pool, in their order
-- of arrival, are the others: what it gave out and what is left make up what was in the pool.
pub take-peek :
    (limit : ℕ) (p : Mempool)
    → Inv p
    → ((take limit p).1 ≡ peek limit p)
      × (present p.by_hash p.order
          ≡ (take limit p).1 ++ present (take limit p).0.by_hash (take limit p).0.order)
unfolding take
take-peek limit p v = (
  take-out limit p v,
  take_loop-splits (if lt64 0 limit then limit else length p.order) p.by_hash p.order v.distinct,
)

take_loop-clears :
    (n : ℕ) (m : List (Text × Transaction)) (hs : List Text) (k : Text)
    → length hs ≤ n
    → lookup k (take_loop n m hs).by_hash ≡ (if member k hs then none else lookup k m)
unfolding take_loop member
take_loop-clears zero m [] k le = refl
take_loop-clears (suc n) m [] k le = refl
take_loop-clears zero m (h ∷ hs) k le = ground arith
take_loop-clears (suc n) m (h ∷ hs) k le = ground (
  arith,
  take_loop-clears (suc n) m hs k,
  take_loop-clears n (delete h m) hs k,
  lookup-delete h k m,
  text_eq_iff h k,
)

-- A Take without a limit leaves no entry in the map.
take_all-empties :
    (p : Mempool) (k : Text) → Inv p → has_key (lookup k (take 0 p).0.by_hash) ≡ false
unfolding take
take_all-empties p k v =
    ground (arith, take_loop-clears (length p.order) p.by_hash p.order k, v.agree k)

module _ (lib : Crypto) where
  -- After a block has taken every transaction of a pool that keeps its invariant, a transaction
  -- that passes CheckTx and whose hash the pool has seen is refused as already seen, and the pool
  -- stays as it was: putting taken transactions back does nothing.
  pub put_back_refused :
      (env : Text) (now : ℕ) (t stamped : Transaction) (p : Mempool) (s : Store)
      → Inv p
      → check_tx lib env now (some t) (take 0 p).0 s ≡ ok stamped
      → has_key (lookup (tx_hash lib stamped) p.seen) ≡ true
      → add lib env now (some t) (take 0 p).0 s ≡ ((take 0 p).0, err already_seen)
  unfolding add take
  put_back_refused env now t stamped p s v checked seen =
      rw checked (ground (arith, add_locked, take_all-empties p (tx_hash lib stamped) v))
