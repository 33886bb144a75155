-- ===== src/Merkle/Leaves.antt =====
-- merkle.go: digests, and the sorted leaves of the accounts.
use east_validator.Prelude.{
  ℕ, zero, suc, ◌-◌, ◌≤◌, ◌<◌, ◌≡◌, refl, sym, ap, ◌∙◌, ◌≢◌, ◌⊎◌, inl, inr, Bool, true, false, List,
  [], ◌∷◌, some, arith, length, get_elem?, All, Bool-cases, if◌then◌else◌,
}
use east_validator.Prelude.Text.{Text, text_eq, text_eq→eq, to_lower}
use east_validator.Prelude.Format.{hex_encode, hex_decode-encode, IsByte, to_lower-hex_encode}
use east_validator.Crypto.{Crypto}
use east_validator.Errors.{ok}
use east_validator.Merkle.{
  Digest, AccountLeaf, left_side, right_side, hash_hex, decode_hex32, sibling_of, insert_leaf,
  find_leaf, hashes,
}
use east_validator.Merkle.Tree.{elem}

-- crypto/sha256 gives 32 bytes.
abbrev pub IsDigest : Digest → Type 0
IsDigest d = (length d ≡ 32) × All IsByte d

pub to_lower-0x : (s : Text) → to_lower (b'0' ∷ b'x' ∷ s) ≡ b'0' ∷ b'x' ∷ to_lower s
unfolding to_lower
to_lower-0x s = refl

pub decode_hex32-hash_hex : (d : Digest) → IsDigest d → decode_hex32 (hash_hex d) ≡ ok d
unfolding decode_hex32 hash_hex
decode_hex32-hash_hex d h =
    rw (to_lower-0x (hex_encode d), to_lower-hex_encode d h.1, hex_decode-encode d h.1, h.0)

abbrev pub IsStep : Digest × Text → Type 0
IsStep (sib, side) = IsDigest sib × ((side ≡ left_side) ⊎ (side ≡ right_side))

pub elem-hashes :
    (lib : Crypto) (leaves : List AccountLeaf) (index : ℕ) {leaf : AccountLeaf}
    → get_elem? leaves index ≡ some leaf
    → elem (hashes lib leaves) index ≡ leaf.hash
elem-hashes lib [] index e = absurd (cc)
elem-hashes lib (l ∷ ls) zero e = ground arith
elem-hashes lib (l ∷ ls) (suc index) e = elem-hashes lib ls index e

pub index_inside :
    (lib : Crypto) (leaves : List AccountLeaf) (index : ℕ) {leaf : AccountLeaf}
    → get_elem? leaves index ≡ some leaf
    → index < length (hashes lib leaves)
index_inside lib [] index e = absurd (cc)
index_inside lib (l ∷ ls) zero e = omega arith
index_inside lib (l ∷ ls) (suc index) e = omega (arith, index_inside lib ls index e)

pub hashes_digests :
    (lib : Crypto) (leaves : List AccountLeaf)
    → All (λ (l : AccountLeaf). IsDigest l.hash) leaves
    → All IsDigest (hashes lib leaves)
hashes_digests lib [] h = tt
hashes_digests lib (l ∷ ls) h = (h.0, hashes_digests lib ls h.1)

pub insert_leaf-ne-nil : (l : AccountLeaf) (ls : List AccountLeaf) → insert_leaf l ls ≢ []
unfolding insert_leaf
insert_leaf-ne-nil l [] = λ e. cc
insert_leaf-ne-nil l (m ∷ ms) = ground arith

pub find_leaf_from :
    (addr : Text) (k i : ℕ) (ls : List AccountLeaf) {l : AccountLeaf}
    → find_leaf addr k ls ≡ some (i, l)
    → (k ≤ i) × (get_elem? ls (i - k) ≡ some l) × (l.addr ≡ addr)
unfolding find_leaf
find_leaf_from addr k i [] e = absurd (cc)
find_leaf_from addr k i (m ∷ ms) {l} e = elim (Bool-cases (text_eq m.addr addr)) [
  | inl f ↦
      let hit : some (k, m) ≡ some (i, l) = rw (f, find_leaf) at e in
      let same : m ≡ l = cc in
      let at_k : k ≡ i = cc in
      let start : i - k ≡ 0 = omega arith in
      let named = text_eq→eq m.addr addr f in
      (omega arith, rw start (ap some same), ap (λ (x : AccountLeaf). x.addr) (sym same) ∙ named)
  | inr f ↦
      let (le, at, named) = find_leaf_from addr (suc k) i ms {l = l} (rw (f, find_leaf) at e) in
      let later : i - k ≡ suc (i - suc k) = omega arith in (omega arith, rw later at, named)
]

pub find_leaf_at :
    (addr : Text) (i : ℕ) (ls : List AccountLeaf) {l : AccountLeaf}
    → find_leaf addr 0 ls ≡ some (i, l)
    → (get_elem? ls i ≡ some l) × (l.addr ≡ addr)
find_leaf_at addr i ls {l} e =
    let (le, at, named) = find_leaf_from addr 0 i ls {l = l} e in
    let whole : i - 0 ≡ i = omega arith in (rw whole at at, named)

pub not_left : text_eq right_side left_side ≡ false
unfolding text_eq
not_left = refl

pub sibling_in : (i : ℕ) (hs : List Digest) → i < length hs → sibling_of i hs < length hs
unfolding sibling_of
sibling_in i hs h = ground arith

pub side_cases :
    (b : Bool)
    → ((if b then left_side else right_side) ≡ left_side)
      ⊎ ((if b then left_side else right_side) ≡ right_side)
side_cases true = inl refl
side_cases false = inr refl
