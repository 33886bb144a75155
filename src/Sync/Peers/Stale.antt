-- ===== src/Sync/Peers/Stale.antt =====
-- archive.go, SyncFromPeers: what a sync from a peer leaves of the store, and when it goes on for ever.
use east_validator.Prelude.{
  ℕ, zero, suc, ◌+◌, ◌%◌, ◌≤◌, ◌<◌, ◌≡◌, refl, ◌∙◌, ◌⊎◌, inl, inr, List, [], ◌∷◌, some, arith,
  Bool-cases, leb,
}
use east_validator.Prelude.Int.{two64}
use east_validator.Errors.{Error, Result, ok, err}
use east_validator.State.{Store}
use east_validator.State.Blocks.{get_latest_height, save_block}
use east_validator.P2p.BlockSync.{BlockAnnounce, cap_range}
use east_validator.Sync.{
  ltb-false, leb-true, leb-false, Kept, Kept-refl, Kept-trans, save_block-Kept, unfinished,
}
use east_validator.Sync.Peers.{
  Peer, request_blocks, header_of, take_announces, catch_up, sync_from_peers,
}

pub take_announces-Kept :
    (bs : List BlockAnnounce) (from : ℕ) (s : Store) → Kept s (take_announces bs from s).1
unfolding take_announces header_of
take_announces-Kept [] from s = Kept-refl s
take_announces-Kept (b ∷ bs) from s = elim (Bool-cases (leb b.height (get_latest_height s))) [
  | inl e ↦ rw e (take_announces-Kept bs from s)
  | inr e ↦
      let saved = save_block (header_of b) s in
      let next = (b.height + 1) % two64 in
      rw e (
        Kept-trans s saved (take_announces bs next saved).1 (save_block-Kept (header_of b) s e)
          (take_announces-Kept bs next saved))
]

-- What a request is answered: an error, nothing, or blocks.
answer_cases :
    (r : Result (List BlockAnnounce))
    → ((b : BlockAnnounce) × ((bs : List BlockAnnounce) × (r ≡ ok (b ∷ bs))))
      ⊎ ((r ≡ ok []) ⊎ ((e : Error) × (r ≡ err e)))
answer_cases (ok []) = inr (inl refl)
answer_cases (ok (b ∷ bs)) = inl (b, (bs, refl))
answer_cases (err e) = inr (inr (e, refl))

pub catch_up-Kept :
    (peer : Peer) (fuel call from target : ℕ) (s : Store)
    → Kept s (catch_up peer fuel call from target s).0
unfolding catch_up
catch_up-Kept peer zero call from target s = elim (Bool-cases (leb from target)) [
  | inl e ↦ rw e (Kept-refl s)
  | inr e ↦ rw e (Kept-refl s)
]
catch_up-Kept peer (suc fuel) call from target s = elim (Bool-cases (leb from target)) [
  | inl e ↦ elim (answer_cases (request_blocks peer call from target)) [
    | inl (b, (bs, f)) ↦
        let (next, after) = take_announces (b ∷ bs) from s in
        rw (e, f)
          (Kept-trans s after (catch_up peer fuel (suc call) next target after).0
            (take_announces-Kept (b ∷ bs) from s)
            (catch_up-Kept peer fuel (suc call) next target after))
    | inr (inl f) ↦ rw (e, f) (Kept-refl s)
    | inr (inr (refused, f)) ↦ rw (e, f) (Kept-refl s)
  ]
  | inr e ↦ rw e (Kept-refl s)
]

pub request_blocks_asks :
    (peer : Peer) (call from to : ℕ)
    → from ≤ to
    → request_blocks peer call from to ≡ peer call from (cap_range from to)
unfolding request_blocks
request_blocks_asks peer call from to range = rw (ltb-false to from range) refl

catch_up_stale :
    (b : BlockAnnounce) (peer : Peer) (fuel call from target : ℕ) (s : Store)
    → ((call from to : ℕ) → peer call from to ≡ ok (b ∷ []))
    → b.height ≤ get_latest_height s
    → from ≤ target
    → catch_up peer fuel call from target s ≡ (s, unfinished)
unfolding catch_up take_announces
catch_up_stale b peer zero call from target s stale low range = rw (leb-true from target range) refl
catch_up_stale b peer (suc fuel) call from target s stale low range =
    rw
      (
        leb-true from target range,
        request_blocks_asks peer call from target range ∙ stale call from (cap_range from target),
        leb-true b.height (get_latest_height s) low,
      )
      (catch_up_stale b peer fuel (suc call) from target s stale low range)

-- A peer that answers every request with a block at or below this node's tip keeps
-- SyncFromPeers in its loop: whatever the fuel, it is spent, and the store is as it was. The target
-- is a uint64 above the tip.
pub sync_from_peers_stale :
    (b : BlockAnnounce) (peer : Peer) (peers : List Peer) (fuel target : ℕ) (s : Store)
    → ((call from to : ℕ) → peer call from to ≡ ok (b ∷ []))
    → b.height ≤ get_latest_height s
    → get_latest_height s < target
    → target < two64
    → sync_from_peers fuel (some (peer ∷ peers)) target s ≡ (s, unfinished)
unfolding sync_from_peers
sync_from_peers_stale b peer peers fuel target s stale low above fits =
    rw (leb-false target (get_latest_height s) above) (
      catch_up_stale b peer fuel 0 ((get_latest_height s + 1) % two64) target s stale low
        (ground (arith, above, fits)))
