-- ===== src/Sync/Archive/Enough.antt =====
-- archive.go: the loop over the chunks ends.
use east_validator.Prelude.{
  ℕ, zero, suc, ◌+◌, ◌*◌, ◌%◌, ◌≤◌, ◌<◌, ◌≡◌, refl, inl, inr, true, Option, arith, Bool-cases, leb,
}
use east_validator.Prelude.Int.{two64}
use east_validator.Prelude.Text.{Text, is_empty}
use east_validator.Crypto.{Crypto}
use east_validator.Errors.{Result-cases}
use east_validator.State.{Store}
use east_validator.State.Blocks.{get_latest_height}
use east_validator.Sync.{leb-false, HttpReply, is_over}
use east_validator.Sync.Archive.{
  ArchiveRangeResponse, fetch_archive_range, chunk_end, take_blocks, sync_chunks, sync_from_archive,
}

module _ (lib : Crypto) (fetch : ℕ → ℕ → Option (HttpReply ArchiveRangeResponse))
    (signer : Text) where
  sync_chunks-is_over :
      (fuel from target : ℕ) (s : Store)
      → target + 500 < two64
      → target < from + fuel * 500
      → is_over (sync_chunks lib fetch signer fuel from target s).1 ≡ true
  unfolding sync_chunks
  sync_chunks-is_over zero from target s fits enough =
      rw (leb-false from target (omega (arith, enough))) refl
  sync_chunks-is_over (suc fuel) from target s fits enough = elim (Bool-cases (leb from target)) [
    | inl e ↦ elim (Result-cases (fetch_archive_range (fetch from (chunk_end from target)))) [
      | inl (blocks, f) ↦
          rw (e, f)
            (sync_chunks-is_over fuel ((from + 500) % two64) target
              (take_blocks lib signer blocks s) fits (ground (arith, e, fits, enough)))
      | inr (refused, f) ↦ rw (e, f) refl
    ]
    | inr e ↦ rw e refl
  ]

  -- An archive sync ends, whatever the archive answers: with one step of fuel for every 500 heights
  -- from the tip to the target it finishes or fails. The target lies 500 or more below 2^64.
  pub sync_from_archive-is_over :
      (fuel : ℕ) (base_url : Text) (target : ℕ) (s : Store)
      → target + 500 < two64
      → target ≤ get_latest_height s + fuel * 500
      → is_over (sync_from_archive lib fetch signer fuel base_url target s).1 ≡ true
  unfolding sync_from_archive
  sync_from_archive-is_over fuel base_url target s fits enough =
      elim (Bool-cases (is_empty base_url)) [
        | inl e ↦ rw e refl
        | inr e ↦ elim (Bool-cases (leb target (get_latest_height s))) [
          | inl f ↦ rw (e, f) refl
          | inr f ↦
              rw (e, f)
                (sync_chunks-is_over fuel ((get_latest_height s + 1) % two64) target s fits
                  (ground (arith, f, fits, enough)))
        ]
      ]
