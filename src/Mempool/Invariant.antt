-- ===== src/Mempool/Invariant.antt =====
-- mempool.go: the invariant of the order of arrival and the map, across Add and Take.
use east_validator.Prelude.Int.{lt64}
use east_validator.Prelude.{
  Option-cases, zero, suc, true, All, if◌then◌else◌, ℕ, ◌≡◌, refl, sym, ◌∙◌, inl, inr, false, ◌||◌,
  List, [], ◌∷◌, ◌++◌, Option, arith, length, Bool-cases, leb,
}
use east_validator.Prelude.Text.{text_eq_refl, Text, text_eq, text_eq_iff}
use east_validator.Prelude.Maps.{delete, lookup-delete, lookup, lookup-insert, text_key}
use east_validator.Crypto.{Crypto}
use east_validator.Tx.{Transaction, tx_hash}
use east_validator.State.{Store}
use east_validator.State.Roster.{member}
use east_validator.Errors.{ok, err}
use east_validator.Mempool.{
  take_loop, take, Mempool, Config, has_key, add_locked, insert_tx, check_tx, add, add_checked, new,
}

-- A list with no text twice.
abbrev pub Distinct : List Text → Type 0
Distinct [] = Unit
Distinct (h ∷ hs) = (member h hs ≡ false) × Distinct hs

-- `order` lists each hash of `byHash` once and nothing else.
pub record Inv (p : Mempool) : Type 0 where
  pub distinct : Distinct p.order
  pub agree : (h : Text) → has_key (lookup h p.by_hash) ≡ member h p.order

member-append :
    (h k : Text) (hs : List Text) → member h (hs ++ k ∷ []) ≡ (member h hs || text_eq k h)
unfolding member
member-append h k [] = ground arith
member-append h k (j ∷ hs) = ground (arith, member-append h k hs)

Distinct-append :
    (k : Text) (hs : List Text) → Distinct hs → member k hs ≡ false → Distinct (hs ++ k ∷ [])
unfolding member
Distinct-append k [] d m = (refl, tt)
Distinct-append k (j ∷ hs) d m = (
  ground (arith, member-append j k hs, text_eq_iff j k, text_eq_iff k j),
  Distinct-append k hs d.1 (ground arith),
)

pub new-Inv : (cfg : Config) → Inv (new cfg)
unfolding new lookup member
new-Inv cfg = record { distinct = tt; agree = λ h. refl }

insert_tx-Inv :
    (now : ℕ) (h : Text) (t : Transaction) (p : Mempool)
    → has_key (lookup h p.by_hash) ≡ false
    → Inv p
    → Inv (insert_tx now h t p)
unfolding insert_tx
insert_tx-Inv now h t p fresh v = record {
  distinct = Distinct-append h p.order v.distinct (sym (v.agree h) ∙ fresh);
  agree = λ k. ground (arith, lookup-insert h k t p.by_hash, v.agree k, member-append k h p.order);
}

add_locked-Inv :
    (now : ℕ) (h : Text) (t : Transaction) (p : Mempool) → Inv p → Inv (add_locked now h t p).0
unfolding add_locked
add_locked-Inv now h t p v = elim (Bool-cases (has_key (lookup h p.by_hash))) [
  | inl e ↦ rw e v
  | inr e ↦ rw e (elim (Bool-cases (has_key (lookup h p.seen))) [
    | inl e' ↦ rw e' v
    | inr e' ↦ rw e' (elim (Bool-cases (leb p.cfg.max_txs (length p.by_hash))) [
      | inl full ↦ rw full v
      | inr room ↦ rw room (insert_tx-Inv now h t p e v)
    ])
  ])
]

module _ (lib : Crypto) where
  -- Adding any transaction, or none, keeps the invariant of the pool: the order of arrival lists
  -- each hash at most once, and lists exactly the hashes of the map.
  pub add-Inv :
      (env : Text) (now : ℕ) (t : Option Transaction) (p : Mempool) (s : Store)
      → Inv p
      → Inv (add lib env now t p s).0
  unfolding add
  add-Inv env now t p s v =
      elim (check_tx lib env now t p s) as (λ r. Inv (add_checked lib now r p).0) [
        | err e ↦ v
        | ok stamped ↦ add_locked-Inv now (tx_hash lib stamped) stamped p v
      ]

-- Every hash of the list is in the map.
Present : List (Text × Transaction) → List Text → Type 0
Present m hs = All (λ h. has_key (lookup h m) ≡ true) hs

Present-delete :
    (h : Text) (m : List (Text × Transaction)) (hs : List Text)
    → member h hs ≡ false
    → Present m hs
    → Present (delete h m) hs
unfolding Present member
Present-delete h m [] fresh p = tt
Present-delete h m (k ∷ hs) fresh p = (
  ground (arith, fresh, p.0, lookup-delete h k m, text_eq_iff h k, text_eq_iff k h),
  Present-delete h m hs (ground (arith, fresh)) p.1,
)

-- What the loop of Take leaves was there before.
take_loop-member :
    (room : ℕ) (m : List (Text × Transaction)) (hs : List Text) (k : Text)
    → member k hs ≡ false
    → member k (take_loop room m hs).remain ≡ false
unfolding take_loop member
take_loop-member zero m [] k out = refl
take_loop-member (suc room) m [] k out = refl
take_loop-member zero m (h ∷ hs) k out = ground (arith, out, take_loop-member zero m hs k)
take_loop-member (suc room) m (h ∷ hs) k out =
    ground (arith, out, take_loop-member (suc room) m hs k, take_loop-member room (delete h m) hs k)

take_loop-Distinct :
    (room : ℕ) (m : List (Text × Transaction)) (hs : List Text)
    → Distinct hs
    → Present m hs
    → Distinct (take_loop room m hs).remain
unfolding take_loop Present
take_loop-Distinct zero m [] d p = tt
take_loop-Distinct (suc room) m [] d p = tt
take_loop-Distinct zero m (h ∷ hs) d p = elim (Option-cases (lookup h m)) [
  | inl e ↦ rw (e, take_loop) (take_loop-Distinct zero m hs d.1 p.1)
  | inr (t, e) ↦
      rw (e, take_loop) (take_loop-member zero m hs h d.0, take_loop-Distinct zero m hs d.1 p.1)
]
take_loop-Distinct (suc room) m (h ∷ hs) d p = elim (Option-cases (lookup h m)) [
  | inl e ↦ ground (arith, p.0, e)
  | inr (t, e) ↦
      rw (e, take_loop)
        (take_loop-Distinct room (delete h m) hs d.1 (Present-delete h m hs d.0 p.1))
]

take_loop-agree :
    (room : ℕ) (m : List (Text × Transaction)) (hs : List Text) (k : Text)
    → Distinct hs
    → Present m hs
    → has_key (lookup k (take_loop room m hs).by_hash)
      ≡ (if member k hs then member k (take_loop room m hs).remain else has_key (lookup k m))
unfolding take_loop member Present
take_loop-agree zero m [] k d p = refl
take_loop-agree (suc room) m [] k d p = refl
take_loop-agree zero m (h ∷ hs) k d p =
    ground (arith, take_loop-agree zero m hs k d.1 p.1, p.0, text_eq_iff h k, d.0)
take_loop-agree (suc room) m (h ∷ hs) k d p = ground (
  arith,
  take_loop-agree room (delete h m) hs k d.1 (Present-delete h m hs d.0 p.1),
  p.0,
  d.0,
  text_eq_iff h k,
  lookup-delete h k m,
  take_loop-member room (delete h m) hs k,
)

agree-Present :
    (m : List (Text × Transaction)) (hs : List Text)
    → ((k : Text) → member k hs ≡ true → has_key (lookup k m) ≡ true)
    → Present m hs
unfolding Present member
agree-Present m [] a = tt
agree-Present m (h ∷ hs) a =
    (a h (ground (arith, text_eq_refl h)), agree-Present m hs (λ k e. a k (ground (arith, e))))

-- Taking transactions for a block, up to any limit, keeps the invariant of the pool: the order of
-- arrival lists each hash at most once, and lists exactly the hashes of the map.
pub take-Inv : (limit : ℕ) (p : Mempool) → Inv p → Inv (take limit p).0
unfolding take
take-Inv limit p v =
    let room = if lt64 0 limit then limit else length p.order in
    let here = agree-Present p.by_hash p.order (λ k e. v.agree k ∙ e) in
    record {
      distinct = take_loop-Distinct room p.by_hash p.order v.distinct here;
      agree = λ k. ground (
        arith,
        take_loop-agree room p.by_hash p.order k v.distinct here,
        v.agree k,
        take_loop-member room p.by_hash p.order k,
      );
    }
