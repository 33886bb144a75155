-- ===== src/Merkle/Complete.antt =====
-- merkle.go: VerifyMerkleProof on the proofs that ProveAccount builds.
use east_validator.Prelude.{
  ℕ, zero, suc, ◌/◌, ◌<◌, ◌≡◌, refl, sym, ap, ◌∙◌, ◌≢◌, inl, inr, true, List, [], ◌∷◌, map, Option,
  none, some, arith, length, length-map, get_elem?, ltb, All, Bool-cases, ==_iff,
}
use east_validator.Prelude.Text.{Text, text_lt, text_eq, text_eq_refl}
use east_validator.Prelude.Format.{hex_encode}
use east_validator.Crypto.{Crypto}
use east_validator.State.{Account, Store, normalize_addr}
use east_validator.Errors.{ok}
use east_validator.Merkle.{
  Digest, MerkleProof, AccountLeaf, left_side, right_side, hash_hex, decode_hex32, sibling_of,
  path_from, parent_hash, leaf_hash, pair_up, layers_from, build_merkle_layers, root_of, walk,
  verify_merkle_proof, inclusion_proof, included, prove_in, prove_found, bare_proof, insert_leaf,
  sort_leaves, find_leaf, load_sorted_leaves, prove_account, hashes, to_leaf,
}
use east_validator.Merkle.Tree.{
  elem, climb, climb-path_from, entry, length-pair_up, layers_from-two, path_from-level,
}
use east_validator.Merkle.Leaves.{
  IsDigest, decode_hex32-hash_hex, IsStep, elem-hashes, index_inside, hashes_digests,
  insert_leaf-ne-nil, find_leaf_at, not_left, sibling_in, side_cases,
}

module _ (lib : Crypto) (sha : (x : List ℕ) → IsDigest (lib.sha256 x)) where
  -- The walk over texts is the climb over digests.
  walk-climb :
      (steps : List (Digest × Text)) (current : Digest)
      → All IsStep steps
      → walk lib (map (λ s. hash_hex s.0) steps) (map (λ s. s.1) steps) current
        ≡ ok (climb lib current steps)
  unfolding walk climb
  walk-climb [] current h = refl
  walk-climb ((sib, side) ∷ steps) current h = rw (decode_hex32-hash_hex sib h.0.0) (elim h.0.1 [
    | inl e ↦ rw (e, text_eq_refl left_side) (walk-climb steps (parent_hash lib sib current) h.1)
    | inr e ↦
        rw (e, not_left, text_eq_refl right_side)
          (walk-climb steps (parent_hash lib current sib) h.1)
  ])

  elem_digest : (hs : List Digest) (i : ℕ) → i < length hs → All IsDigest hs → IsDigest (elem hs i)
  elem_digest [] i l h = absurd (omega arith)
  elem_digest (d ∷ hs) zero l h = h.0
  elem_digest (d ∷ hs) (suc i) l h = elem_digest hs i (omega arith) h.1

  pair_up_digests : (hs : List Digest) → All IsDigest (pair_up lib hs)
  unfolding pair_up parent_hash
  pair_up_digests [] = tt
  pair_up_digests (l ∷ []) = (sha _, tt)
  pair_up_digests (l ∷ r ∷ rest) = (sha _, pair_up_digests rest)

  entry-IsStep : (i : ℕ) (hs : List Digest) → i < length hs → All IsDigest hs → IsStep (entry i hs)
  entry-IsStep i hs l h =
      (elem_digest hs (sibling_of i hs) (sibling_in i hs l) h, side_cases (ltb (sibling_of i hs) i))

  path_steps :
      (fuel : ℕ) (hs : List Digest) (i : ℕ)
      → i < length hs
      → All IsDigest hs
      → All IsStep (path_from i (layers_from lib fuel hs))
  path_steps zero hs i l h = unfold path_from layers_from in tt
  path_steps (suc fuel) [] i l h = absurd (omega arith)
  path_steps (suc fuel) (d ∷ []) i l h = unfold path_from layers_from in tt
  path_steps (suc fuel) (d ∷ e ∷ rest) i l h =
      rw
        (
          layers_from-two lib fuel d e rest,
          path_from-level lib i (d ∷ e ∷ rest) fuel (pair_up lib (d ∷ e ∷ rest)),
        )
        (
          entry-IsStep i (d ∷ e ∷ rest) l h,
          path_steps fuel (pair_up lib (d ∷ e ∷ rest)) (i / 2)
              (omega (arith, length-pair_up lib (d ∷ e ∷ rest))) (pair_up_digests (d ∷ e ∷ rest)),
        )

  climb_digest :
      (steps : List (Digest × Text)) (d : Digest) → IsDigest d → IsDigest (climb lib d steps)
  unfolding climb parent_hash
  climb_digest [] d h = h
  climb_digest ((sib, side) ∷ steps) d h = elim (Bool-cases (text_eq side left_side)) [
    | inl e ↦ rw e (climb_digest steps _ (sha _))
    | inr e ↦ rw e (climb_digest steps _ (sha _))
  ]

  -- What a proof needs to be accepted.
  accepts :
      (p : MerkleProof) (d r : Digest)
      → included p.leaf_index ≡ true
      → decode_hex32 p.leaf_hash ≡ ok d
      → leaf_hash lib p.address p.account ≡ d
      → length p.path ≡ length p.sides
      → walk lib p.path p.sides d ≡ ok r
      → decode_hex32 p.state_root ≡ ok r
      → verify_merkle_proof lib p ≡ ok tt
  unfolding verify_merkle_proof
  accepts p d r i l own lengths w root = rw (
    i,
    l,
    own,
    text_eq_refl (hex_encode d),
    (==_iff (length p.path) (length p.sides)).1 lengths,
    w,
    root,
    text_eq_refl (hex_encode r),
  )

  tree_climbs :
      (hs : List Digest) (index : ℕ)
      → index < length hs
      → climb lib (elem hs index) (path_from index (build_merkle_layers lib hs))
        ≡ root_of lib (build_merkle_layers lib hs)
  unfolding build_merkle_layers
  tree_climbs [] index h = absurd (omega arith)
  tree_climbs (d ∷ hs) index h =
      climb-path_from lib (length (d ∷ hs)) (d ∷ hs) index h (omega arith)

  tree_steps :
      (hs : List Digest) (index : ℕ)
      → index < length hs
      → All IsDigest hs
      → All IsStep (path_from index (build_merkle_layers lib hs))
  unfolding build_merkle_layers
  tree_steps [] index h a = absurd (omega arith)
  tree_steps (d ∷ hs) index h a = path_steps (length (d ∷ hs)) (d ∷ hs) index h a

  -- A proof built for the leaf at an index, whose digest is that of its account, is accepted.
  pub inclusion_proof_verifies :
      (addr : Text) (index : ℕ) (leaf : AccountLeaf) (leaves : List AccountLeaf)
      → get_elem? leaves index ≡ some leaf
      → leaf.hash ≡ leaf_hash lib addr leaf.acc
      → All (λ (l : AccountLeaf). IsDigest l.hash) leaves
      → verify_merkle_proof lib (inclusion_proof lib addr index leaf leaves) ≡ ok tt
  unfolding inclusion_proof
  inclusion_proof_verifies addr index leaf leaves at own all =
      let hs = hashes lib leaves in
      let steps = path_from index (build_merkle_layers lib hs) in
      let digests = hashes_digests lib leaves all in
      let here = elem-hashes lib leaves index at in
      let inside = index_inside lib leaves index at in
      let start = elem_digest hs index inside digests in
      let climbed : climb lib leaf.hash steps ≡ root_of lib (build_merkle_layers lib hs) =
        rw (← here) (tree_climbs hs index inside) in
      let root_ok : IsDigest (root_of lib (build_merkle_layers lib hs)) =
        rw (← climbed) (climb_digest steps leaf.hash (rw (← here) start)) in
      accepts (inclusion_proof lib addr index leaf leaves) leaf.hash
        (root_of lib (build_merkle_layers lib hs)) refl
        (decode_hex32-hash_hex leaf.hash (rw (← here) start)) (sym own)
        (rw (length-map steps (λ s. hash_hex s.0), length-map steps (λ s. s.1)))
        (walk-climb steps leaf.hash (tree_steps hs index inside digests) ∙ ap ok climbed)
        (decode_hex32-hash_hex (root_of lib (build_merkle_layers lib hs)) root_ok)

  abbrev IsLeaf : AccountLeaf → Type 0
  IsLeaf l = l.hash ≡ leaf_hash lib l.addr l.acc

  insert_leaf_ok :
      (l : AccountLeaf) (ls : List AccountLeaf)
      → IsLeaf l
      → All IsLeaf ls
      → All IsLeaf (insert_leaf l ls)
  unfolding insert_leaf
  insert_leaf_ok l [] h a = (h, tt)
  insert_leaf_ok l (m ∷ ms) h a = elim (Bool-cases (text_lt m.addr l.addr)) [
    | inl e ↦ rw e (a.0, insert_leaf_ok l ms h a.1)
    | inr e ↦ rw e (h, (a.0, a.1))
  ]

  sorted_leaves_ok : (m : List (Text × Account)) → All IsLeaf (sort_leaves (map (to_leaf lib) m))
  unfolding sort_leaves
  sorted_leaves_ok [] = tt
  sorted_leaves_ok ((k, acc) ∷ m) =
      insert_leaf_ok (to_leaf lib (k, acc)) _ refl (sorted_leaves_ok m)

  leaves_digests :
      (ls : List AccountLeaf) → All IsLeaf ls → All (λ (l : AccountLeaf). IsDigest l.hash) ls
  unfolding leaf_hash
  leaves_digests [] a = tt
  leaves_digests (l ∷ ls) a = (rw a.0 (sha _), leaves_digests ls a.1)

  IsLeaf-at :
      (ls : List AccountLeaf) (i : ℕ) {l : AccountLeaf}
      → All IsLeaf ls
      → get_elem? ls i ≡ some l
      → IsLeaf l
  IsLeaf-at [] i a e = absurd (cc)
  IsLeaf-at (m ∷ ms) zero {l} a e = let same : m ≡ l = cc in rw (← same) a.0
  IsLeaf-at (m ∷ ms) (suc i) a e = IsLeaf-at ms i a.1 e

  found_proof_verifies :
      (addr : Text) (s : Store) (index : ℕ) (leaf : AccountLeaf)
      → find_leaf addr 0 (load_sorted_leaves lib s) ≡ some (index, leaf)
      → verify_merkle_proof lib (inclusion_proof lib addr index leaf (load_sorted_leaves lib s))
        ≡ ok tt
  unfolding load_sorted_leaves
  found_proof_verifies addr s index leaf e =
      let leaves = sort_leaves (map (to_leaf lib) s.accounts) in
      let all = sorted_leaves_ok s.accounts in
      let (at, named) = find_leaf_at addr index leaves e in
      inclusion_proof_verifies addr index leaf leaves at
        (IsLeaf-at leaves index all at ∙ ap (λ a. leaf_hash lib a leaf.acc) named)
        (leaves_digests leaves all)

  prove_found_verifies :
      (addr : Text) (s : Store) (index : ℕ) (o : Option (ℕ × AccountLeaf))
      → find_leaf addr 0 (load_sorted_leaves lib s) ≡ o
      → (prove_found lib addr s (load_sorted_leaves lib s) o).leaf_index ≡ some index
      → verify_merkle_proof lib (prove_found lib addr s (load_sorted_leaves lib s) o) ≡ ok tt
  unfolding prove_found bare_proof
  prove_found_verifies addr s index none e marked = absurd (cc)
  prove_found_verifies addr s index (some (i, leaf)) e marked = found_proof_verifies addr s i leaf e

  prove_in-found :
      (addr : Text) (s : Store) (leaves : List AccountLeaf)
      → leaves ≢ []
      → prove_in lib addr s leaves ≡ prove_found lib addr s leaves (find_leaf addr 0 leaves)
  unfolding prove_in
  prove_in-found addr s [] h = absurd (h refl)
  prove_in-found addr s (l ∷ ls) h = refl

  leaves-ne-nil : (m : List (Text × Account)) → m ≢ [] → sort_leaves (map (to_leaf lib) m) ≢ []
  unfolding sort_leaves
  leaves-ne-nil [] h = absurd (h refl)
  leaves-ne-nil ((k, acc) ∷ m) h =
      insert_leaf-ne-nil (to_leaf lib (k, acc)) (sort_leaves (map (to_leaf lib) m))

  -- With a hash function whose digests have 32 bytes, every proof that ProveAccount builds for an
  -- account of a tree that is not empty, and marks as included, is accepted by VerifyMerkleProof.
  pub prove_account_verifies :
      (addr : Text) (s : Store) (index : ℕ)
      → s.accounts ≢ []
      → (prove_account lib addr s).leaf_index ≡ some index
      → verify_merkle_proof lib (prove_account lib addr s) ≡ ok tt
  unfolding prove_account
  prove_account_verifies addr s index some_account marked =
      let leaves = load_sorted_leaves lib s in
      let addr' = normalize_addr addr in
      let full : leaves ≢ [] = unfold load_sorted_leaves in leaves-ne-nil s.accounts some_account in
      let e = prove_in-found addr' s leaves full in
      rw e (prove_found_verifies addr' s index (find_leaf addr' 0 leaves) refl (rw e at marked))
