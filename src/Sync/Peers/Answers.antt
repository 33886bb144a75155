-- ===== src/Sync/Peers/Answers.antt =====
-- archive.go, sync.go and block_provider.go together: one answer of a peer that runs this program.
use east_validator.Prelude.{
  ℕ, zero, suc, ◌+◌, ◌%◌, ◌≤◌, ◌<◌, ◌≡◌, refl, sym, ap, ◌∙◌, inl, inr, List, ◌∷◌, some, arith,
  Bool-cases, ◌==◌, ==_iff,
}
use east_validator.Prelude.Int.{two64}
use east_validator.Prelude.Maps.{lookup, lookup-insert_self, nat_eq}
use east_validator.Errors.{ok}
use east_validator.State.{BlockHeader, Store}
use east_validator.State.Accounts.{get_or}
use east_validator.State.Blocks.{get_latest_height, get_block, save_block}
use east_validator.P2p.BlockSync.{BlockAnnounce, announce_of, announces_from, serve_sync}
use east_validator.Sync.{Kept, leb-false}
use east_validator.Sync.Peers.{Peer, header_of, take_announces}
use east_validator.Sync.Peers.Stale.{take_announces-Kept}

-- What this program answers from a store.
abbrev pub serving : Store → Peer
serving other call from to = serve_sync from to other

-- The header as it arrives.
abbrev pub copy : BlockHeader → BlockHeader
copy h = header_of (announce_of h)

-- The store holds a block at a height, under its own height.
unfoldable pub Holds : Store → ℕ → Type 0
Holds other height =
    (blk : BlockHeader) × ((lookup height other.blocks ≡ some blk) × (blk.height ≡ height))

-- The headers of the heights from `from` up to below `upto` are the other store's.
unfoldable pub Copied : Store → ℕ → ℕ → Store → Type 0
Copied other from upto s =
    (height : ℕ) (blk : BlockHeader)
    → from ≤ height
    → height < upto
    → lookup height other.blocks ≡ some blk
    → lookup height s.blocks ≡ some (copy blk)

pub record Caught (other : Store) (from upto : ℕ) (r : ℕ × Store) : Type 0 where
  pub next : r.0 ≡ upto
  pub tip : get_latest_height r.1 + 1 ≡ upto
  pub copied : Copied other from upto r.1

some_same : {a b : BlockHeader} → some a ≡ some b → a ≡ b
some_same {a} e = ap (λ o. get_or o a) e

-- A longer stretch is copied if its first block is and the rest.
Copied-first :
    (other : Store) (from upto : ℕ) (blk : BlockHeader) (s : Store)
    → lookup from other.blocks ≡ some blk
    → lookup from s.blocks ≡ some (copy blk)
    → Copied other (suc from) upto s
    → Copied other from upto s
unfolding Copied
Copied-first other from upto blk s there here rest height b low high found =
    elim (Bool-cases (from == height)) [
      | inl e ↦
          let same = (==_iff from height).0 e in
          let blk_is = some_same (sym there ∙ (ap (λ h. lookup h other.blocks) same ∙ found)) in
          ap (λ h. lookup h s.blocks) (sym same) ∙ (here ∙ ap (λ x. some (copy x)) blk_is)
      | inr e ↦ rest height b (ground (arith, e, low)) high found
    ]

wrapped : (a b : ℕ) → a ≡ b → b + 1 < two64 → (a + 1) % two64 ≡ suc b
wrapped a b e fits = omega (arith, e, fits)

get_block_found :
    (height : ℕ) (b : BlockHeader) (s : Store)
    → lookup height s.blocks ≡ some b
    → get_block height s ≡ ok b
unfolding get_block
get_block_found height b s found = rw found refl

pub announces_from_first :
    (count from : ℕ) (blk : BlockHeader) (other : Store)
    → lookup from other.blocks ≡ some blk
    → announces_from (suc count) from other
      ≡ announce_of blk ∷ announces_from count (suc from) other
unfolding announces_from
announces_from_first count from blk other found =
    rw (get_block_found from blk other found, announces_from) refl

take_announces_first :
    (blk : BlockHeader) (bs : List BlockAnnounce) (from : ℕ) (s : Store)
    → blk.height ≡ from
    → get_latest_height s + 1 ≡ from
    → from + 1 < two64
    → take_announces (announce_of blk ∷ bs) from s
      ≡ take_announces bs (suc from) (save_block (copy blk) s)
unfolding take_announces announce_of
take_announces_first blk bs from s own tip fits =
    rw
      (
        leb-false blk.height (get_latest_height s) (omega (arith, own, tip)),
        wrapped blk.height from own fits,
      )
      refl

get_latest_height-save_block :
    (h : BlockHeader) (s : Store) → get_latest_height (save_block h s) ≡ h.height
unfolding get_latest_height save_block
get_latest_height-save_block h s = refl

lookup-save_block : (h : BlockHeader) (s : Store) → lookup h.height (save_block h s).blocks ≡ some h
unfolding save_block
lookup-save_block h s = lookup-insert_self h.height h s.blocks

-- The stretch after the first block, and the first block.
Caught-first :
    (other : Store) (from upto : ℕ) (blk : BlockHeader) (s : Store) (r : ℕ × Store)
    → lookup from other.blocks ≡ some blk
    → blk.height ≡ from
    → Kept (save_block (copy blk) s) r.1
    → Caught other (suc from) upto r
    → Caught other from upto r
unfolding header_of announce_of
Caught-first other from upto blk s r there own kept rest = record {
  next = rest.next;
  tip = rest.tip;
  copied =
      Copied-first other from upto blk r.1 there
        (ap (λ h. lookup h r.1.blocks) (sym own)
          ∙ (kept.headers blk.height (omega (arith, get_latest_height-save_block (copy blk) s))
              ∙ lookup-save_block (copy blk) s))
        rest.copied;
}

pub take_announces-Caught :
    (other : Store) (count from upto : ℕ) (s : Store)
    → from + count ≡ upto
    → upto < two64
    → get_latest_height s + 1 ≡ from
    → ((height : ℕ) → from ≤ height → height < upto → Holds other height)
    → Caught other from upto (take_announces (announces_from count from other) from s)
unfolding take_announces announces_from Holds Copied
take_announces-Caught other zero from upto s sum fits tip held = record {
  next = omega (arith, sum);
  tip = omega (arith, sum, tip);
  copied = λ height b low high found. absurd (omega (arith, sum, low, high));
}
take_announces-Caught other (suc count) from upto s sum fits tip held =
    let (blk, (there, own)) = held from (omega arith) (omega (arith, sum)) in
    let saved = save_block (copy blk) s in
    let bs = announces_from count (suc from) other in
    rw
      (
        announces_from_first count from blk other there,
        take_announces_first blk bs from s own tip (omega (arith, sum, fits)),
      )
      (Caught-first other from upto blk s (take_announces bs (suc from) saved) there own
        (take_announces-Kept bs (suc from) saved)
        (take_announces-Caught other count (suc from) upto saved (omega (arith, sum)) fits
          (omega (arith, get_latest_height-save_block (copy blk) s, own))
          (λ height low high. held height (omega (arith, low)) high)))
