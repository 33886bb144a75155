-- ===== src/Sync/Archive/Vetting.antt =====
-- archive.go: what an archive sync leaves of the store and what it lets in, whatever the archive
-- answers and wherever the sync ends.
use east_validator.Prelude.{
  ℕ, zero, suc, ◌+◌, ◌≡◌, ◌%◌, sym, ap, ◌∙◌, inl, inr, ◌⊎◌, Bool, true, false, List, [], ◌∷◌,
  Option, some, arith, Bool-cases, leb, ◌==◌, if◌then◌else◌,
}
use mathlib.Core.Bool.{false≢true}
use mathlib.Core.Path.{subst}
use east_validator.Prelude.Int.{two64}
use east_validator.Prelude.Text.{Text, is_empty}
use east_validator.Prelude.Maps.{lookup, lookup-insert, nat_eq}
use east_validator.Crypto.{Crypto, build_chain_signing_message, verify_eip191}
use east_validator.Errors.{Result, ok, err, Result-cases}
use east_validator.State.{BlockHeader, Store}
use east_validator.State.Accounts.{get_or}
use east_validator.State.Blocks.{get_latest_height, save_block}
use east_validator.Sync.{HttpReply, Kept, Kept-refl, Kept-trans, save_above, save_above-Kept}
use east_validator.Sync.Archive.{
  ArchiveBlock, ArchiveRangeResponse, fetch_archive_range, chunk_end, header_of, verified,
  is_accepted, take_blocks, sync_chunks, sync_from_archive,
}

-- A relation between the store before and after that saving an accepted block has.
pub record Carried (lib : Crypto) (signer : Text) (R : Store → Store → Type 0) : Type 0 where
  pub still : (s : Store) → R s s
  pub further : (a b c : Store) → R a b → R b c → R a c
  pub saved :
      (b : ArchiveBlock) (s : Store)
      → is_accepted lib signer b ≡ true
      → R s (save_above (header_of b) s)

module _ (lib : Crypto) (signer : Text) (R : Store → Store → Type 0)
    (carried : Carried lib signer R) where
  take_blocks-carried : (bs : List ArchiveBlock) (s : Store) → R s (take_blocks lib signer bs s)
  unfolding take_blocks
  take_blocks-carried [] s = carried.still s
  take_blocks-carried (b ∷ bs) s = elim (Bool-cases (is_accepted lib signer b)) [
    | inl e ↦ rw e (
        carried.further s (save_above (header_of b) s)
          (take_blocks lib signer bs (save_above (header_of b) s)) (carried.saved b s e)
          (take_blocks-carried bs (save_above (header_of b) s)))
    | inr e ↦ rw e (take_blocks-carried bs s)
  ]

  module _ (fetch : ℕ → ℕ → Option (HttpReply ArchiveRangeResponse)) where
    sync_chunks-carried :
        (fuel from target : ℕ) (s : Store) → R s (sync_chunks lib fetch signer fuel from target s).0
    unfolding sync_chunks
    sync_chunks-carried zero from target s = elim (Bool-cases (leb from target)) [
      | inl e ↦ rw e (carried.still s)
      | inr e ↦ rw e (carried.still s)
    ]
    sync_chunks-carried (suc fuel) from target s = elim (Bool-cases (leb from target)) [
      | inl e ↦ elim (Result-cases (fetch_archive_range (fetch from (chunk_end from target)))) [
        | inl (blocks, f) ↦
            let next = take_blocks lib signer blocks s in
            rw (e, f)
              (carried.further s next
                (sync_chunks lib fetch signer fuel ((from + 500) % two64) target next).0
                (take_blocks-carried blocks s)
                (sync_chunks-carried fuel ((from + 500) % two64) target next))
        | inr (refused, f) ↦ rw (e, f) (carried.still s)
      ]
      | inr e ↦ rw e (carried.still s)
    ]

    pub sync_from_archive-carried :
        (fuel : ℕ) (base_url : Text) (target : ℕ) (s : Store)
        → R s (sync_from_archive lib fetch signer fuel base_url target s).0
    unfolding sync_from_archive
    sync_from_archive-carried fuel base_url target s = elim (Bool-cases (is_empty base_url)) [
      | inl e ↦ rw e (carried.still s)
      | inr e ↦ elim (Bool-cases (leb target (get_latest_height s))) [
        | inl f ↦ rw (e, f) (carried.still s)
        | inr f ↦ rw (e, f) (sync_chunks-carried fuel ((get_latest_height s + 1) % two64) target s)
      ]
    ]

-- Every header of the store after was there before or is signed by the signer.
pub Vetted : Crypto → Text → Store → Store → Type 0
Vetted lib signer before after =
    (height : ℕ) (b : BlockHeader)
    → lookup height after.blocks ≡ some b
    → (lookup height before.blocks ≡ some b)
      ⊎ (verify_eip191 lib (build_chain_signing_message b.height b.hash) b.signature signer
          ≡ ok true)

verified-true : (r : Result Bool) → verified r ≡ true → r ≡ ok true
verified-true (ok b) h = ap ok h
verified-true (err e) h = absurd (false≢true h)

is_accepted-verified :
    (lib : Crypto) (signer : Text) (b : ArchiveBlock)
    → is_empty signer ≡ false
    → is_accepted lib signer b ≡ true
    → verified (verify_eip191 lib (build_chain_signing_message b.height b.hash) b.signature signer)
      ≡ true
unfolding is_accepted
is_accepted-verified lib signer b named accepted = ground (arith, named, accepted)

some_same : {a b : BlockHeader} → some a ≡ some b → a ≡ b
some_same {a} e = ap (λ o. get_or o a) e

save_block-Vetted :
    (lib : Crypto) (signer : Text) (h : BlockHeader) (s : Store)
    → verify_eip191 lib (build_chain_signing_message h.height h.hash) h.signature signer ≡ ok true
    → Vetted lib signer s (save_block h s)
unfolding Vetted save_block
save_block-Vetted lib signer h s signed height b found =
    let read = sym (lookup-insert h.height height h s.blocks) ∙ found in
    elim (Bool-cases (h.height == height)) [
      | inl e ↦
          let same =
            some_same (sym (ap (λ t. if t then some h else lookup height s.blocks) e) ∙ read) in
          inr (
            subst
              (λ (x : BlockHeader).
                verify_eip191 lib (build_chain_signing_message x.height x.hash) x.signature signer
                ≡ ok true)
              same signed)
      | inr e ↦ inl (sym (ap (λ t. if t then some h else lookup height s.blocks) e) ∙ read)
    ]

Vetted-refl : (lib : Crypto) (signer : Text) (s : Store) → Vetted lib signer s s
unfolding Vetted
Vetted-refl lib signer s height h found = inl found

save_above-Vetted :
    (lib : Crypto) (signer : Text) (h : BlockHeader) (s : Store)
    → verify_eip191 lib (build_chain_signing_message h.height h.hash) h.signature signer ≡ ok true
    → Vetted lib signer s (save_above h s)
unfolding save_above
save_above-Vetted lib signer h s signed = elim (Bool-cases (leb h.height (get_latest_height s))) [
  | inl e ↦ rw e (Vetted-refl lib signer s)
  | inr e ↦ rw e (save_block-Vetted lib signer h s signed)
]

accepted-Vetted :
    (lib : Crypto) (signer : Text) (b : ArchiveBlock) (s : Store)
    → is_empty signer ≡ false
    → is_accepted lib signer b ≡ true
    → Vetted lib signer s (save_above (header_of b) s)
unfolding header_of
accepted-Vetted lib signer b s named accepted = save_above-Vetted lib signer (header_of b) s (
    verified-true
      (verify_eip191 lib (build_chain_signing_message b.height b.hash) b.signature signer)
      (is_accepted-verified lib signer b named accepted))

Vetted-trans :
    (lib : Crypto) (signer : Text) (a b c : Store)
    → Vetted lib signer a b
    → Vetted lib signer b c
    → Vetted lib signer a c
unfolding Vetted
Vetted-trans lib signer a b c first second height h found = elim (second height h found) [
  | inl there ↦ first height h there
  | inr signed ↦ inr signed
]

-- An archive sync leaves the headers up to the tip that it starts from as they are, and does not
-- lower the tip, whatever the archive answers and also when it ends with an error.
sync_from_archive-Kept :
    (lib : Crypto) (fetch : ℕ → ℕ → Option (HttpReply ArchiveRangeResponse)) (signer : Text)
    (fuel : ℕ) (base_url : Text) (target : ℕ) (s : Store)
    → Kept s (sync_from_archive lib fetch signer fuel base_url target s).0
sync_from_archive-Kept lib fetch signer fuel base_url target s =
    sync_from_archive-carried lib signer Kept
      (record {
        still = Kept-refl;
        further = Kept-trans;
        saved = λ b t accepted. save_above-Kept (header_of b) t;
      })
      fetch fuel base_url target s

-- With a signer set, every header in the store after an archive sync was there before or carries a
-- signature over its height and hash that recovers to the signer, whatever the archive answers.
pub sync_from_archive-Vetted :
    (lib : Crypto) (fetch : ℕ → ℕ → Option (HttpReply ArchiveRangeResponse)) (signer : Text)
    (fuel : ℕ) (base_url : Text) (target : ℕ) (s : Store)
    → is_empty signer ≡ false
    → Vetted lib signer s (sync_from_archive lib fetch signer fuel base_url target s).0
sync_from_archive-Vetted lib fetch signer fuel base_url target s named =
    sync_from_archive-carried lib signer (Vetted lib signer)
      (record {
        still = Vetted-refl lib signer;
        further = Vetted-trans lib signer;
        saved = λ b t accepted. accepted-Vetted lib signer b t named accepted;
      })
      fetch fuel base_url target s
