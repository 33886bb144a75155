-- ===== src/Merkle/Duplicate.antt =====
-- merkle.go: the odd last node of a layer, which is its own sibling.
use east_validator.Prelude.{
  ℕ, zero, suc, ◌%◌, ◌≤◌, ◌≡◌, refl, sym, ap, ◌∙◌, List, [], ◌∷◌, ◌++◌, arith, length,
}
use east_validator.Crypto.{Crypto}
use east_validator.Merkle.{Digest, pair_up, layers_from, build_merkle_layers, root_of, parent_hash}
use east_validator.Merkle.Tree.{length-pair_up, layers_from-two, root_of-level}

module _ (lib : Crypto) where
  pair_up-duplicate :
      (xs : List Digest) (c : Digest)
      → length xs % 2 ≡ 0
      → pair_up lib (xs ++ c ∷ []) ≡ pair_up lib (xs ++ c ∷ c ∷ [])
  unfolding pair_up
  pair_up-duplicate [] c h = refl
  pair_up-duplicate (x ∷ []) c h = absurd (omega arith)
  pair_up-duplicate (x ∷ y ∷ xs) c h =
      ap (◌∷◌ (parent_hash lib x y)) (pair_up-duplicate xs c (omega arith))

  -- More fuel than the leaves need changes nothing.
  root_fuel :
      (f g : ℕ) (hs : List Digest)
      → length hs ≤ suc f
      → length hs ≤ suc g
      → root_of lib (layers_from lib f hs) ≡ root_of lib (layers_from lib g hs)
  root_fuel zero zero hs a b = refl
  root_fuel zero (suc g) [] a b = unfold layers_from root_of in refl
  root_fuel zero (suc g) (x ∷ []) a b = unfold layers_from root_of in refl
  root_fuel zero (suc g) (x ∷ y ∷ hs) a b = absurd (omega arith)
  root_fuel (suc f) zero [] a b = unfold layers_from root_of in refl
  root_fuel (suc f) zero (x ∷ []) a b = unfold layers_from root_of in refl
  root_fuel (suc f) zero (x ∷ y ∷ hs) a b = absurd (omega arith)
  root_fuel (suc f) (suc g) [] a b = unfold layers_from root_of in refl
  root_fuel (suc f) (suc g) (x ∷ []) a b = unfold layers_from root_of in refl
  root_fuel (suc f) (suc g) (x ∷ y ∷ hs) a b =
      rw
        (
          layers_from-two lib f x y hs,
          layers_from-two lib g x y hs,
          root_of-level lib (x ∷ y ∷ hs) f (pair_up lib (x ∷ y ∷ hs)),
          root_of-level lib (x ∷ y ∷ hs) g (pair_up lib (x ∷ y ∷ hs)),
        )
        (root_fuel f g (pair_up lib (x ∷ y ∷ hs)) (omega (arith, length-pair_up lib (x ∷ y ∷ hs)))
          (omega (arith, length-pair_up lib (x ∷ y ∷ hs))))

  -- The root of two or more leaves is that of their parents.
  root-pair_up :
      (x y : Digest) (rest : List Digest)
      → root_of lib (build_merkle_layers lib (x ∷ y ∷ rest))
        ≡ root_of lib (build_merkle_layers lib (pair_up lib (x ∷ y ∷ rest)))
  unfolding build_merkle_layers
  root-pair_up x y rest =
      rw
        (
          layers_from-two lib (length (y ∷ rest)) x y rest,
          root_of-level lib (x ∷ y ∷ rest) (length (y ∷ rest)) (pair_up lib (x ∷ y ∷ rest)),
        )
        (unfold pair_up in
          root_fuel (length (y ∷ rest)) (length (pair_up lib (x ∷ y ∷ rest)))
            (pair_up lib (x ∷ y ∷ rest)) (omega (arith, length-pair_up lib (x ∷ y ∷ rest)))
            (omega (arith, length-pair_up lib (x ∷ y ∷ rest))))

  -- After two or more leaves, an even number of them, one more leaf and the same leaf twice give
  -- the same root.
  pub duplicate_root :
      (x y : Digest) (xs : List Digest) (c : Digest)
      → length xs % 2 ≡ 0
      → root_of lib (build_merkle_layers lib (x ∷ y ∷ xs ++ c ∷ []))
        ≡ root_of lib (build_merkle_layers lib (x ∷ y ∷ xs ++ c ∷ c ∷ []))
  duplicate_root x y xs c h =
      root-pair_up x y (xs ++ c ∷ [])
      ∙ (ap (λ hs. root_of lib (build_merkle_layers lib hs))
            (pair_up-duplicate (x ∷ y ∷ xs) c (omega arith))
          ∙ sym (root-pair_up x y (xs ++ c ∷ c ∷ [])))
