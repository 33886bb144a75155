-- ===== src/Merkle/Tree.antt =====
-- The layers of the tree, and the paths through them.
use east_validator.Prelude.{
  ℕ, zero, suc, ◌+◌, ◌/◌, ◌≤◌, ◌<◌, ◌≡◌, refl, sym, ap, ◌∙◌, inl, inr, List, [], ◌∷◌, arith, length,
  get_elem?, ltb, Bool-cases, if◌then◌else◌,
}
use east_validator.Prelude.Text.{Text, text_eq}
use east_validator.Crypto.{Crypto}
use east_validator.State.Accounts.{get_or}
use east_validator.Merkle.{
  Digest, left_side, right_side, sibling_of, path_from, parent_hash, pair_up, layers_from, root_of,
}

abbrev pub elem : List Digest → ℕ → Digest
elem hs i = get_or (get_elem? hs i) []

-- The walk over digests and sides that `walk` makes over their texts.
abbrev pub climb_step : Crypto → Digest → Digest × Text → Digest
climb_step lib current (sib, side) =
    if text_eq side left_side then parent_hash lib sib current else parent_hash lib current sib

unfoldable pub climb : Crypto → Digest → List (Digest × Text) → Digest
climb lib current [] = current
climb lib current (s ∷ steps) = climb lib (climb_step lib current s) steps

sibling_zero : (l r : Digest) (rest : List Digest) → sibling_of 0 (l ∷ r ∷ rest) ≡ 1
unfolding sibling_of
sibling_zero l r rest = ground arith

sibling_one : (l r : Digest) (rest : List Digest) → sibling_of 1 (l ∷ r ∷ rest) ≡ 0
unfolding sibling_of
sibling_one l r rest = ground arith

sibling_later :
    (i : ℕ) (l r : Digest) (rest : List Digest)
    → sibling_of (suc (suc i)) (l ∷ r ∷ rest) ≡ suc (suc (sibling_of i rest))
unfolding sibling_of
sibling_later i l r rest = ground arith

ltb-suc-suc : (a b : ℕ) → ltb (suc (suc a)) (suc (suc b)) ≡ ltb a b
ltb-suc-suc a b = ground arith

half_later : (i : ℕ) → suc (suc i) / 2 ≡ suc (i / 2)
half_later i = omega arith

-- One entry of the path from node `i` of a level.
abbrev pub entry : ℕ → List Digest → Digest × Text
entry i hs = let s = sibling_of i hs in (elem hs s, if ltb s i then left_side else right_side)

module _ (lib : Crypto) where
  pub length-pair_up : (hs : List Digest) → length (pair_up lib hs) ≡ (length hs + 1) / 2
  unfolding pair_up
  length-pair_up [] = omega arith
  length-pair_up (l ∷ []) = omega arith
  length-pair_up (l ∷ r ∷ rest) = omega (arith, length-pair_up rest)

  -- The parent of node `i` is node `i / 2` of the next layer, whichever side `i` is on.
  elem-pair_up :
      (hs : List Digest) (i : ℕ)
      → i < length hs
      → elem (pair_up lib hs) (i / 2) ≡ climb_step lib (elem hs i) (entry i hs)
  unfolding pair_up text_eq
  elem-pair_up [] i h = absurd (omega arith)
  elem-pair_up (l ∷ []) zero h = unfold sibling_of in refl
  elem-pair_up (l ∷ []) (suc i) h = absurd (omega arith)
  elem-pair_up (l ∷ r ∷ rest) zero h = rw (sibling_zero l r rest)
  elem-pair_up (l ∷ r ∷ rest) (suc zero) h = rw (sibling_one l r rest)
  elem-pair_up (l ∷ r ∷ rest) (suc (suc i)) h =
      rw (sibling_later i l r rest, ltb-suc-suc (sibling_of i rest) i, half_later i)
        (elem-pair_up rest i (omega arith))

  pub layers_from-two :
      (fuel : ℕ) (l r : Digest) (rest : List Digest)
      → layers_from lib (suc fuel) (l ∷ r ∷ rest)
        ≡ (l ∷ r ∷ rest) ∷ layers_from lib fuel (pair_up lib (l ∷ r ∷ rest))
  unfolding layers_from
  layers_from-two fuel l r rest = ground arith

  -- The layers above a level are never empty, so a path has an entry for the level.
  pub path_from-level :
      (i : ℕ) (level : List Digest) (fuel : ℕ) (hs : List Digest)
      → path_from i (level ∷ layers_from lib fuel hs)
        ≡ entry i level ∷ path_from (i / 2) (layers_from lib fuel hs)
  unfolding path_from layers_from
  path_from-level i level zero hs = refl
  path_from-level i level (suc fuel) hs = elim (Bool-cases (ltb 1 (length hs))) [
    | inl e ↦ rw e
    | inr e ↦ rw e
  ]

  pub root_of-level :
      (level : List Digest) (fuel : ℕ) (hs : List Digest)
      → root_of lib (level ∷ layers_from lib fuel hs) ≡ root_of lib (layers_from lib fuel hs)
  unfolding root_of layers_from
  root_of-level level zero hs = refl
  root_of-level level (suc fuel) hs = elim (Bool-cases (ltb 1 (length hs))) [
    | inl e ↦ rw e
    | inr e ↦ rw e
  ]

  climb_above :
      (fuel : ℕ) (l r : Digest) (rest : List Digest) (i : ℕ)
      → i < length (l ∷ r ∷ rest)
      → climb lib
          (elem (pair_up lib (l ∷ r ∷ rest)) (i / 2))
          (path_from (i / 2) (layers_from lib fuel (pair_up lib (l ∷ r ∷ rest))))
        ≡ root_of lib (layers_from lib fuel (pair_up lib (l ∷ r ∷ rest)))
      → climb lib (elem (l ∷ r ∷ rest) i) (path_from i (layers_from lib (suc fuel) (l ∷ r ∷ rest)))
        ≡ root_of lib (layers_from lib (suc fuel) (l ∷ r ∷ rest))
  unfolding climb
  climb_above fuel l r rest i h above =
      rw
        (
          layers_from-two fuel l r rest,
          path_from-level i (l ∷ r ∷ rest) fuel (pair_up lib (l ∷ r ∷ rest)),
          root_of-level (l ∷ r ∷ rest) fuel (pair_up lib (l ∷ r ∷ rest)),
        )
        (ap
            (λ (d : Digest).
              climb lib d (path_from (i / 2) (layers_from lib fuel (pair_up lib (l ∷ r ∷ rest)))))
            (sym (elem-pair_up (l ∷ r ∷ rest) i h))
          ∙ above)

  -- The path from any leaf climbs to the root.
  pub climb-path_from :
      (fuel : ℕ) (hs : List Digest) (i : ℕ)
      → i < length hs
      → length hs ≤ suc fuel
      → climb lib (elem hs i) (path_from i (layers_from lib fuel hs))
        ≡ root_of lib (layers_from lib fuel hs)
  unfolding climb path_from layers_from root_of
  climb-path_from zero [] i h f = absurd (omega arith)
  climb-path_from zero (l ∷ []) zero h f = refl
  climb-path_from zero (l ∷ []) (suc i) h f = absurd (omega arith)
  climb-path_from zero (l ∷ r ∷ rest) i h f = absurd (omega arith)
  climb-path_from (suc fuel) [] i h f = absurd (omega arith)
  climb-path_from (suc fuel) (l ∷ []) zero h f = refl
  climb-path_from (suc fuel) (l ∷ []) (suc i) h f = absurd (omega arith)
  climb-path_from (suc fuel) (l ∷ r ∷ rest) i h f = climb_above fuel l r rest i h (
      climb-path_from fuel (pair_up lib (l ∷ r ∷ rest)) (i / 2)
        (omega (arith, length-pair_up (l ∷ r ∷ rest)))
        (omega (arith, length-pair_up (l ∷ r ∷ rest))))
