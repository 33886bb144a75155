-- ===== src/Sync.antt =====
-- internal/sync: catching up with the chain at startup. The network is what it answers: an HTTP
-- reply is a status and the body, decoded if it is the JSON that is expected.
pub mod Archive
pub mod Peers
use east_validator.Prelude.{
  Bool, true, false, Bool-cases, ◌<◌, ℕ, ◌+◌, ◌≡◌, refl, sym, ◌∙◌, inl, inr, ◌⊎◌, ◌≤◌, List, Option,
  none, some, arith, leb, ltb, ◌==◌, if◌then◌else◌,
}
use east_validator.Prelude.Maps.{lookup, lookup-insert, nat_eq}
use east_validator.Errors.{
  Error, Result, ok, err, ◌>>=◌, ◌>>◌, guard, or_fail, request_failed, bad_status, bad_json,
}
use east_validator.State.{BlockHeader, Store}
use east_validator.State.Accounts.{get_or}
use east_validator.State.Blocks.{save_block, get_latest_height}
use east_validator.State.Backup.{BackupSnapshot, import_full_snapshot}

pub record HttpReply {ℓ} (A : Type ℓ) : Type ℓ where
  pub status : ℕ
  pub decoded : Option A

-- The request, the status and the body; `none` is a request that fails.
unfoldable pub read_reply {ℓ} : {A : Type ℓ} → Option (HttpReply A) → Result A
read_reply reply = do
  res ← or_fail reply request_failed
  guard (res.status == 200) bad_status
  or_fail res.decoded bad_json

-- How a sync ends: it runs to its end, it returns an error, or the fuel is spent and it would go on.
pub data Outcome : Type 0 where
  finished : Outcome
  failed : Error → Outcome
  unfinished : Outcome

abbrev pub is_over : Outcome → Bool
is_over finished = true
is_over (failed e) = true
is_over unfinished = false

-- A header that is received is saved if it is above the tip.
unfoldable pub save_above : BlockHeader → Store → Store
save_above h s = if leb h.height (get_latest_height s) then s else save_block h s

-- What a sync keeps of the store that it starts from: the tip does not go down, and the headers up
-- to the tip stay.
pub record Kept (before after : Store) : Type 0 where
  pub tip : get_latest_height before ≤ get_latest_height after
  pub headers :
      (height : ℕ)
      → height ≤ get_latest_height before
      → lookup height after.blocks ≡ lookup height before.blocks

pub Kept-refl : (s : Store) → Kept s s
Kept-refl s = record { tip = ground arith; headers = λ height low. refl }

pub Kept-trans : (a b c : Store) → Kept a b → Kept b c → Kept a c
Kept-trans a b c first second = record {
  tip = omega (arith, first.tip, second.tip);
  headers = λ height low.
      second.headers height (omega (arith, first.tip, low)) ∙ first.headers height low;
}

pub leb-true : (a b : ℕ) → a ≤ b → leb a b ≡ true
leb-true a b h = ground (arith, h)

pub leb-false : (a b : ℕ) → b < a → leb a b ≡ false
leb-false a b h = ground (arith, h)

pub ltb-false : (a b : ℕ) → b ≤ a → ltb a b ≡ false
ltb-false a b h = ground (arith, h)

other_height :
    (a b : ℕ) (o : Option BlockHeader) (h : BlockHeader)
    → b < a
    → (if a == b then some h else o) ≡ o
other_height a b o h low = ground (arith, low)

pub save_block-Kept :
    (h : BlockHeader) (s : Store)
    → leb h.height (get_latest_height s) ≡ false
    → Kept s (save_block h s)
unfolding save_block get_latest_height
save_block-Kept h s above = record {
  tip = ground (arith, above);
  headers = λ height low.
      lookup-insert h.height height h s.blocks
      ∙ other_height h.height height (lookup height s.blocks) h (ground (arith, above, low));
}

pub save_above-Kept : (h : BlockHeader) (s : Store) → Kept s (save_above h s)
unfolding save_above
save_above-Kept h s = elim (Bool-cases (leb h.height (get_latest_height s))) [
  | inl e ↦ rw e (Kept-refl s)
  | inr e ↦ rw e (save_block-Kept h s e)
]

-- backup.go's SyncFromURL: the snapshot of another node, imported.
unfoldable pub sync_from_url :
    ℕ → Option (HttpReply BackupSnapshot) → Bool → Store → Store × Result (ℕ × ℕ)
sync_from_url now reply force s = elim (read_reply reply) [
  | ok snap ↦ import_full_snapshot now (some snap) force s
  | err e ↦ (s, err e)
]
