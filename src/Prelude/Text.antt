-- ===== src/Prelude/Text.antt =====
-- Go strings as lists of byte codes, with what the program uses of package strings. Case and
-- space are those of ASCII.
pub mod Plain
use Prim.Native.Char.{code}
use Prim.Native.String.{String}
use Prim.Native.Nat.{ℕ, ◌+◌, ◌≤◌}
use mathlib.Core.Path.{◌≡◌, refl, ap, ◌∙◌}
use mathlib.Core.Logic.{◌↔◌, inl, inr}
use mathlib.Core.Bool.{Bool, true, false, ◌&&◌, ◌||◌}
use mathlib.Core.List.{
  List, [], ◌∷◌, ◌++◌, map, map-append, reverse, reverse-cons, reverse-append, reverse-reverse,
}
use native.Mathlib.Omega.{arith}
use east_validator.Prelude.Tests.{ltb, leb, ◌==◌, if◌then◌else◌, Bool-cases}
use east_validator.Prelude.Lists.{length}

abbrev pub Text : Type 0
Text = List ℕ

-- A literal.
abbrev pub codes : String → Text
codes String.[] = []
codes (String.◌∷◌ c s) = code c ∷ codes s

unfoldable pub text_eq : Text → Text → Bool
text_eq [] [] = true
text_eq [] (d ∷ t) = false
text_eq (c ∷ s) [] = false
text_eq (c ∷ s) (d ∷ t) = c == d && text_eq s t

pub text_eq_refl : (s : Text) → text_eq s s ≡ true
unfolding text_eq
text_eq_refl [] = refl
text_eq_refl (c ∷ s) = ground (arith, text_eq_refl s)

pub text_eq→eq : (s t : Text) → text_eq s t ≡ true → s ≡ t
unfolding text_eq
text_eq→eq [] [] h = refl
text_eq→eq [] (d ∷ t) h = cc
text_eq→eq (c ∷ s) [] h = cc
text_eq→eq (c ∷ s) (d ∷ t) h = ground (arith, text_eq→eq s t)

pub text_eq_iff : (s t : Text) → (text_eq s t ≡ true) ↔ (s ≡ t)
text_eq_iff s t = (text_eq→eq s t, λ e. cc (text_eq_refl s, e))

-- Go's `<` on strings.
unfoldable pub text_lt : Text → Text → Bool
text_lt s [] = false
text_lt [] (d ∷ t) = true
text_lt (c ∷ s) (d ∷ t) = ltb c d || (c == d && text_lt s t)

abbrev pub lower : ℕ → ℕ
lower c = if leb 65 c && leb c 90 then c + 32 else c

-- strings.ToLower.
unfoldable pub to_lower : Text → Text
to_lower = map lower

unfoldable pub is_space : ℕ → Bool
is_space c = c == 32 || (leb 9 c && leb c 13)

trim_left : Text → Text
unfolding is_space
trim_left [] = []
trim_left (c ∷ s) = if is_space c then trim_left s else c ∷ s

-- strings.TrimSpace.
unfoldable pub trim_space : Text → Text
unfolding trim_left
trim_space s = reverse (trim_left (reverse (trim_left s)))

-- strings.EqualFold.
unfoldable pub equal_fold : Text → Text → Bool
unfolding text_eq to_lower
equal_fold s t = text_eq (to_lower s) (to_lower t)

abbrev pub is_empty : Text → Bool
is_empty [] = true
is_empty (c ∷ s) = false

-- Trimming and lowering, once done, change nothing more.
trim_left-trim_left : (s : Text) → trim_left (trim_left s) ≡ trim_left s
unfolding trim_left
trim_left-trim_left [] = refl
trim_left-trim_left (c ∷ s) = elim (Bool-cases (is_space c)) [
  | inl e ↦ rw e (trim_left-trim_left s)
  | inr e ↦ rw (e, e)
]

trim_left-append_last :
    (s : Text) (c : ℕ) → is_space c ≡ false → trim_left (s ++ c ∷ []) ≡ trim_left s ++ c ∷ []
unfolding trim_left
trim_left-append_last [] c e = rw e
trim_left-append_last (d ∷ s) c e = elim (Bool-cases (is_space d)) [
  | inl f ↦ rw f (trim_left-append_last s c e)
  | inr f ↦ rw f
]

length-trim_left : (s : Text) → length (trim_left s) ≤ length s
unfolding trim_left
length-trim_left [] = omega arith
length-trim_left (c ∷ s) = ground (arith, length-trim_left s)

head_kept : (c : ℕ) (s : Text) → trim_left (c ∷ s) ≡ c ∷ s → is_space c ≡ false
unfolding trim_left
head_kept c s h = elim (Bool-cases (is_space c)) [
  | inl e ↦ absurd (omega (arith, length-trim_left s, ap length (rw (e, trim_left) at h)))
  | inr e ↦ e
]

trim_both :
    (u : Text) → trim_left u ≡ u → let t = reverse (trim_left (reverse u)) in trim_left t ≡ t
trim_both [] h = unfold trim_left in refl
trim_both (c ∷ r) h =
    let e = head_kept c r h in
    rw
      (
        reverse-cons c r,
        trim_left-append_last (reverse r) c e,
        reverse-append (trim_left (reverse r)) (c ∷ []),
      )
      (unfold trim_left in rw e)

trim_space-trim_space : (s : Text) → trim_space (trim_space s) ≡ trim_space s
unfolding trim_space
trim_space-trim_space s = rw (
  trim_both (trim_left s) (trim_left-trim_left s),
  reverse-reverse (trim_left (reverse (trim_left s))),
  trim_left-trim_left (reverse (trim_left s)),
)

is_space-lower : (c : ℕ) → is_space (lower c) ≡ is_space c
unfolding is_space
is_space-lower c = ground arith

lower-lower : (c : ℕ) → lower (lower c) ≡ lower c
lower-lower c = ground arith

trim_left-to_lower : (s : Text) → trim_left (map lower s) ≡ map lower (trim_left s)
unfolding trim_left
trim_left-to_lower [] = refl
trim_left-to_lower (c ∷ s) = elim (Bool-cases (is_space c)) [
  | inl e ↦ rw (e, is_space-lower c, e) (trim_left-to_lower s)
  | inr e ↦ rw (e, is_space-lower c, e)
]

reverse-to_lower : (s : Text) → reverse (map lower s) ≡ map lower (reverse s)
reverse-to_lower [] = refl
reverse-to_lower (c ∷ s) = rw (
  reverse-cons (lower c) (map lower s),
  reverse-cons c s,
  reverse-to_lower s,
  map-append lower (reverse s) (c ∷ []),
)

trim_space-to_lower : (s : Text) → trim_space (to_lower s) ≡ to_lower (trim_space s)
unfolding trim_space to_lower
trim_space-to_lower s = rw (
  trim_left-to_lower s,
  reverse-to_lower (trim_left s),
  trim_left-to_lower (reverse (trim_left s)),
  reverse-to_lower (trim_left (reverse (trim_left s))),
)

pub to_lower-to_lower : (s : Text) → to_lower (to_lower s) ≡ to_lower s
unfolding to_lower
to_lower-to_lower [] = refl
to_lower-to_lower (c ∷ s) = rw (lower-lower c) (ap (◌∷◌ (lower c)) (to_lower-to_lower s))

pub normal_twice :
    (s : Text) → to_lower (trim_space (to_lower (trim_space s))) ≡ to_lower (trim_space s)
normal_twice s =
    ap to_lower (trim_space-to_lower (trim_space s))
    ∙ (to_lower-to_lower (trim_space (trim_space s)) ∙ ap to_lower (trim_space-trim_space s))
