-- ===== src/Sync/Peers/Honest.antt =====
-- archive.go, sync.go and block_provider.go together: a sync from a peer that runs this program.
use east_validator.Prelude.{
  ℕ, zero, suc, ◌+◌, ◌-◌, ◌%◌, ◌≤◌, ◌<◌, ◌≡◌, refl, sym, ap, ◌∙◌, inl, inr, List, ◌∷◌, some, arith,
  Bool-cases, leb, ltb,
}
use mathlib.Core.Path.{subst}
use east_validator.Prelude.Int.{two64}
use east_validator.Prelude.Maps.{lookup, nat_eq}
use east_validator.Errors.{ok}
use east_validator.State.{BlockHeader, Store}
use east_validator.State.Blocks.{get_latest_height}
use east_validator.P2p.BlockSync.{
  BlockAnnounce, announces_from, get_block_range, cap_range, serve_sync,
}
use east_validator.Sync.{Kept, Outcome, finished, leb-true, leb-false}
use east_validator.Sync.Peers.{Peer, take_announces, catch_up, sync_from_peers}
use east_validator.Sync.Peers.Stale.{catch_up-Kept, request_blocks_asks}
use east_validator.Sync.Peers.Answers.{
  serving, Holds, Copied, Caught, take_announces-Caught, announces_from_first,
}

-- The first height past those that one request is answered for.
abbrev answered_to : ℕ → ℕ → ℕ
answered_to from target = cap_range from target + 1

serve_sync_answers :
    (from target : ℕ) (other : Store)
    → from ≤ target
    → target + 50 < two64
    → serve_sync from (cap_range from target) other
      ≡ ok (announces_from (suc (cap_range from target - from)) from other)
unfolding serve_sync get_block_range cap_range
serve_sync_answers from target other range fits = ground (arith, range, fits)

cap_range_within :
    (from target : ℕ)
    → from ≤ target
    → target + 50 < two64
    → (from ≤ cap_range from target) × (cap_range from target ≤ target)
unfolding cap_range
cap_range_within from target range fits = (ground (arith, range, fits), ground (arith, range, fits))

-- One answer.
abbrev served : Store → ℕ → ℕ → List BlockAnnounce
served other from target = announces_from (suc (cap_range from target - from)) from other

-- One turn of the loop: the answer is not empty, and the loop goes on after it.
catch_up_turn :
    (other : Store) (fuel call from target : ℕ) (blk : BlockHeader) (s : Store)
    → from ≤ target
    → target + 50 < two64
    → lookup from other.blocks ≡ some blk
    → catch_up (serving other) (suc fuel) call from target s
      ≡ catch_up
          (serving other)
          fuel
          (suc call)
          (take_announces (served other from target) from s).0
          target
          (take_announces (served other from target) from s).1
unfolding catch_up
catch_up_turn other fuel call from target blk s range fits there =
    let first = announces_from_first (cap_range from target - from) from blk other there in
    rw
      (
        leb-true from target range,
        request_blocks_asks (serving other) call from target range
            ∙ (serve_sync_answers from target other range fits ∙ ap ok first),
        first,
      )
      refl

-- What one answer brings.
served-Caught :
    (other : Store) (from target : ℕ) (s : Store)
    → from ≤ target
    → target + 50 < two64
    → get_latest_height s + 1 ≡ from
    → ((height : ℕ) → from ≤ height → height ≤ target → Holds other height)
    → Caught other from (answered_to from target) (take_announces (served other from target) from s)
served-Caught other from target s range fits tip held =
    let within = cap_range_within from target range fits in
    take_announces-Caught other (suc (cap_range from target - from)) from (answered_to from target)
      s (omega (arith, within.0)) (omega (arith, within.1, fits)) tip
      (λ height low high. held height low (omega (arith, within.1, high)))

unwrapped : (a b : ℕ) → a < b → b + 50 < two64 → (a + 1) % two64 ≡ a + 1
unwrapped a b low fits = omega (arith, low, fits)

-- A sync that has all that it wants.
pub record Synced (other : Store) (from target : ℕ) (r : Store × Outcome) : Type 0 where
  pub ended : r.1 ≡ finished
  pub tip : get_latest_height r.0 ≡ target
  pub copied : Copied other from (target + 1) r.0

-- Two stretches, one after the other.
Copied-append :
    (other : Store) (from middle upto : ℕ) (s after : Store)
    → get_latest_height s + 1 ≡ middle
    → Kept s after
    → Copied other from middle s
    → Copied other middle upto after
    → Copied other from upto after
unfolding Copied
Copied-append other from middle upto s after tip kept first rest height b low high found =
    elim (Bool-cases (ltb height middle)) [
      | inl e ↦
          kept.headers height (ground (arith, e, tip))
          ∙ first height b low (ground (arith, e)) found
      | inr e ↦ rest height b (ground (arith, e)) high found
    ]

-- A turn, and the turns after it.
go_on :
    (other : Store) (fuel call from target : ℕ) (s : Store)
    → from ≤ target
    → target + 50 < two64
    → get_latest_height s + 1 ≡ from
    → ((height : ℕ) → from ≤ height → height ≤ target → Holds other height)
    → ((next : ℕ) (after : Store)
        → from < next
        → next ≤ target + 1
        → get_latest_height after + 1 ≡ next
        → Synced other next target (catch_up (serving other) fuel (suc call) next target after))
    → Synced other from target (catch_up (serving other) (suc fuel) call from target s)
unfolding Holds
go_on other fuel call from target s range fits tip held later =
    let within = cap_range_within from target range fits in
    let (blk, (there, own)) = held from (omega arith) range in
    let (next, after) = take_announces (served other from target) from s in
    let caught = served-Caught other from target s range fits tip held in
    let rest =
      later next after (omega (arith, caught.next, within.0)) (omega (arith, caught.next, within.1))
        (caught.tip ∙ sym caught.next) in
    subst (Synced other from target)
      (sym (catch_up_turn other fuel call from target blk s range fits there))
      (record {
        ended = rest.ended;
        tip = rest.tip;
        copied =
            Copied-append other from next (target + 1) after
              (catch_up (serving other) fuel (suc call) next target after).0
              (caught.tip ∙ sym caught.next)
              (catch_up-Kept (serving other) fuel (suc call) next target after)
              (subst (λ u. Copied other from u after) (sym caught.next) caught.copied) rest.copied;
      })

catch_up-Synced :
    (other : Store) (fuel call from target : ℕ) (s : Store)
    → target + 50 < two64
    → from ≤ target + 1
    → target < from + fuel
    → get_latest_height s + 1 ≡ from
    → ((height : ℕ) → from ≤ height → height ≤ target → Holds other height)
    → Synced other from target (catch_up (serving other) fuel call from target s)
unfolding catch_up Copied Holds
catch_up-Synced other zero call from target s fits upto enough tip held =
    rw (leb-false from target (omega (arith, enough))) (record {
      ended = refl;
      tip = omega (arith, tip, upto, enough);
      copied = λ height b low high found. absurd (omega (arith, enough, low, high));
    })
catch_up-Synced other (suc fuel) call from target s fits upto enough tip held =
    elim (Bool-cases (leb from target)) [
      | inl e ↦
          go_on other fuel call from target s (ground (arith, e)) fits tip held
            (λ next after low high more.
              catch_up-Synced other fuel (suc call) next target after fits high
                (omega (arith, low, enough)) more
                (λ height above below. held height (omega (arith, low, above)) below))
      | inr e ↦ rw e (record {
        ended = refl;
        tip = ground (arith, e, tip, upto);
        copied = λ height b low high found. absurd (ground (arith, e, low, high));
      })
    ]

-- Syncing from a peer that runs this program and holds a block at every height above the tip up to
-- the target finishes, with one step of fuel for each of these heights: the tip is then the target,
-- and the headers at these heights are the peer's as it announces them. The target lies
-- more than 50 below 2^64.
pub sync_from_peers-Synced :
    (other : Store) (peers : List Peer) (fuel target : ℕ) (s : Store)
    → target + 50 < two64
    → get_latest_height s < target
    → target ≤ get_latest_height s + fuel
    → ((height : ℕ) → get_latest_height s < height → height ≤ target → Holds other height)
    → Synced other
        (get_latest_height s + 1)
        target
        (sync_from_peers fuel (some (serving other ∷ peers)) target s)
unfolding sync_from_peers
sync_from_peers-Synced other peers fuel target s fits above enough held =
    rw
      (
        leb-false target (get_latest_height s) above,
        unwrapped (get_latest_height s) target above fits,
      )
      (catch_up-Synced other fuel 0 (get_latest_height s + 1) target s fits (omega (arith, above))
        (omega (arith, enough)) refl (λ height low high. held height (omega (arith, low)) high))
