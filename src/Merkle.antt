-- ===== src/Merkle.antt =====
-- internal/state/merkle.go and stateroot.go: the binary Merkle tree over the accounts, inclusion
-- proofs and their check. A digest is a list of bytes.
pub mod Tree
pub mod Leaves
pub mod Complete
pub mod Duplicate
use east_validator.Prelude.{
  ℕ, zero, suc, ◌+◌, ◌-◌, ◌/◌, ◌%◌, ◌≡◌, refl, Bool, true, false, not, List, [], ◌∷◌, ◌++◌, map,
  Option, none, some, arith, length, get_elem?, ltb, leb, ◌==◌, if◌then◌else◌,
}
use east_validator.Prelude.Text.{Text, codes, text_eq, text_lt, to_lower, trim_space}
use east_validator.Prelude.Format.{show_nat, show_int64, hex_encode, hex_decode}
use east_validator.Crypto.{Crypto, trim_0x}
use east_validator.State.{Account, Store, normalize_addr}
use east_validator.State.Accounts.{get_or, get_account}
use east_validator.Errors.{
  Error, Result, ok, err, ◌>>=◌, ◌>>◌, guard, or_fail, nil_proof, not_included, bad_hash,
  leaf_mismatch, path_sides_mismatch, invalid_side, root_mismatch,
}

abbrev pub Digest : Type 0
Digest = List ℕ

unfoldable pub hash_hex : Digest → Text
hash_hex b = codes "0x" ++ hex_encode b

unfoldable pub decode_hex32 : Text → Result Digest
decode_hex32 s = do
  b ← or_fail (hex_decode (trim_0x (to_lower s))) bad_hash
  guard (length b == 32) bad_hash
  ok b

-- `addr` is `strings.ToLower(key)`, and the hash is that of the account under `addr`.
pub record AccountLeaf : Type 0 where
  pub addr : Text
  pub acc : Account
  pub hash : Digest

unfoldable pub insert_leaf : AccountLeaf → List AccountLeaf → List AccountLeaf
insert_leaf l [] = l ∷ []
insert_leaf l (m ∷ ms) = if text_lt m.addr l.addr then m ∷ insert_leaf l ms else l ∷ m ∷ ms

-- sort.Slice by address.
unfoldable pub sort_leaves : List AccountLeaf → List AccountLeaf
unfolding insert_leaf
sort_leaves [] = []
sort_leaves (l ∷ ls) = insert_leaf l (sort_leaves ls)

-- `index ^ 1`.
unfoldable pub flip_last : ℕ → ℕ
flip_last i = if i % 2 == 0 then i + 1 else i - 1

abbrev pub last_or {ℓ} : {A : Type ℓ} → A → List A → A
last_or d [] = d
last_or d (x ∷ xs) = last_or x xs

abbrev pub head_or {ℓ} : {A : Type ℓ} → A → List A → A
head_or d [] = d
head_or d (x ∷ xs) = x

pub record MerkleProof : Type 0 where
  pub address : Text
  pub account : Account
  pub leaf_hash : Text
  -- `none` is -1: the account is not in the tree.
  pub leaf_index : Option ℕ
  pub leaf_count : ℕ
  pub path : List Text
  pub sides : List Text
  pub state_root : Text

abbrev pub left_side : Text
left_side = codes "L"

abbrev pub right_side : Text
right_side = codes "R"

-- The sibling at one layer; past an odd end it is the node itself.
unfoldable pub sibling_of : ℕ → List Digest → ℕ
unfolding flip_last
sibling_of index level = let s = flip_last index in if leb (length level) s then index else s

-- The loop over the layers below the root: sibling digests and sides.
unfoldable pub path_from : ℕ → List (List Digest) → List (Digest × Text)
unfolding sibling_of
path_from index [] = []
path_from index (root ∷ []) = []
path_from index (level ∷ next ∷ layers) =
    let sibling = sibling_of index level in
    (get_or (get_elem? level sibling) [], if ltb sibling index then left_side else right_side)
    ∷ path_from (index / 2) (next ∷ layers)

unfoldable pub find_leaf : Text → ℕ → List AccountLeaf → Option (ℕ × AccountLeaf)
find_leaf addr i [] = none
find_leaf addr i (l ∷ ls) = if text_eq l.addr addr then some (i, l) else find_leaf addr (suc i) ls

abbrev pub included : Option ℕ → Bool
included none = false
included (some i) = true

module _ (lib : Crypto) where
  unfoldable pub leaf_hash : Text → Account → Digest
  leaf_hash address acc = lib.sha256 (
      codes "EAST_LEAF|"
      ++ (normalize_addr address
          ++ (codes "|"
              ++ (show_int64 acc.balance
                  ++ (codes "|"
                      ++ (show_int64 acc.staked
                          ++ (codes "|"
                              ++ (show_int64 acc.pending_unstake
                                  ++ (codes "|" ++ show_nat acc.nonce)))))))))

  unfoldable pub empty_leaf : Digest
  empty_leaf = lib.sha256 (codes "EAST_EMPTY")

  unfoldable pub parent_hash : Digest → Digest → Digest
  parent_hash left right = lib.sha256 (codes "EAST_NODE|" ++ (left ++ right))

  abbrev pub to_leaf : Text × Account → AccountLeaf
  to_leaf (key, acc) = record {
    addr = to_lower key;
    acc = acc;
    hash = leaf_hash (to_lower key) acc;
  }

  unfoldable pub load_sorted_leaves : Store → List AccountLeaf
  load_sorted_leaves s = sort_leaves (map to_leaf s.accounts)

  -- One round of the loop of buildMerkleLayers: an odd last node is its own sibling.
  unfoldable pub pair_up : List Digest → List Digest
  pair_up [] = []
  pair_up (left ∷ []) = parent_hash left left ∷ []
  pair_up (left ∷ right ∷ rest) = parent_hash left right ∷ pair_up rest

  -- The layers from one level up; a level of one node is the root's.
  unfoldable pub layers_from : ℕ → List Digest → List (List Digest)
  layers_from zero level = level ∷ []
  layers_from (suc fuel) level =
      let above = layers_from fuel (pair_up level) in
      if ltb 1 (length level) then level ∷ above else level ∷ []

  unfoldable pub build_merkle_layers : List Digest → List (List Digest)
  unfolding layers_from
  build_merkle_layers [] = (empty_leaf ∷ []) ∷ []
  build_merkle_layers (h ∷ hs) = layers_from (length (h ∷ hs)) (h ∷ hs)

  -- `layers[len(layers)-1][0]`.
  unfoldable pub root_of : List (List Digest) → Digest
  root_of layers = head_or [] (last_or [] layers)

  abbrev pub hashes : List AccountLeaf → List Digest
  hashes = map λ l. l.hash

  unfoldable pub compute_merkle_state_root : Store → Text
  unfolding load_sorted_leaves
  compute_merkle_state_root s =
      hash_hex (root_of (build_merkle_layers (hashes (load_sorted_leaves s))))

  unfoldable pub compute_state_root : Store → Text
  unfolding compute_merkle_state_root
  compute_state_root s = compute_merkle_state_root s

  -- A proof with no path, for an account that is not in the tree.
  bare_proof : Text → Account → Option ℕ → ℕ → Text → MerkleProof
  bare_proof addr acc index count root = record {
    address = addr;
    account = acc;
    leaf_hash = hash_hex (leaf_hash addr acc);
    leaf_index = index;
    leaf_count = count;
    path = [];
    sides = [];
    state_root = root;
  }

  unfoldable pub inclusion_proof : Text → ℕ → AccountLeaf → List AccountLeaf → MerkleProof
  inclusion_proof addr index leaf leaves =
      let layers = build_merkle_layers (hashes leaves) in
      let steps = path_from index layers in
      record {
        address = addr;
        account = leaf.acc;
        leaf_hash = hash_hex leaf.hash;
        leaf_index = some index;
        leaf_count = length leaves;
        path = map (λ s. hash_hex s.0) steps;
        sides = map (λ s. s.1) steps;
        state_root = hash_hex (root_of layers);
      }

  prove_found : Text → Store → List AccountLeaf → Option (ℕ × AccountLeaf) → MerkleProof
  prove_found addr s leaves none =
      bare_proof addr (get_account addr s) none (length leaves)
        (hash_hex (root_of (build_merkle_layers (hashes leaves))))
  prove_found addr s leaves (some (index, leaf)) = inclusion_proof addr index leaf leaves

  prove_in : Text → Store → List AccountLeaf → MerkleProof
  prove_in addr s [] = bare_proof addr (get_account addr s) (some 0) 0 (hash_hex empty_leaf)
  prove_in addr s (l ∷ ls) = prove_found addr s (l ∷ ls) (find_leaf addr 0 (l ∷ ls))

  unfoldable pub prove_account_merkle : Text → Store → MerkleProof
  unfolding prove_in prove_found bare_proof
  prove_account_merkle address s = prove_in (normalize_addr address) s (load_sorted_leaves s)

  unfoldable pub prove_account : Text → Store → MerkleProof
  unfolding prove_account_merkle
  prove_account addr s = prove_account_merkle addr s

  abbrev join_side : Text → Digest → Digest → Result Digest
  join_side side sib current =
      if text_eq side left_side
      then ok (parent_hash sib current)
      else if text_eq side right_side
      then ok (parent_hash current sib)
      else err invalid_side

  -- The walk along the path; the lists have one length.
  unfoldable pub walk : List Text → List Text → Digest → Result Digest
  walk [] sides current = ok current
  walk (p ∷ ps) [] current = err invalid_side
  walk (p ∷ ps) (side ∷ sides) current = do
    sib ← decode_hex32 p
    next ← join_side side sib current
    walk ps sides next

  unfoldable pub verify_merkle_proof : MerkleProof → Result (Unit {0})
  unfolding walk
  verify_merkle_proof p =
      let expected = leaf_hash p.address p.account in
      do
        guard (included p.leaf_index) not_included
        got ← decode_hex32 p.leaf_hash
        guard (text_eq (hex_encode expected) (hex_encode got)) leaf_mismatch
        guard (length p.path == length p.sides) path_sides_mismatch
        current ← walk p.path p.sides expected
        root ← decode_hex32 p.state_root
        guard (text_eq (hex_encode current) (hex_encode root)) root_mismatch
