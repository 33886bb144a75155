-- ===== src/Prelude/Text/Plain.antt =====
-- Texts that trimming and lowering leave as they are.
use Prim.Native.Nat.{ℕ}
use mathlib.Core.Path.{◌≡◌, refl}
use mathlib.Core.Bool.{false}
use mathlib.Core.List.{[], ◌∷◌, ◌++◌, reverse, reverse-cons, reverse-reverse}
use east_validator.Prelude.Lists.{All}
use east_validator.Prelude.Text.{Text, lower, to_lower, is_space, trim_left, trim_space}

-- No space and no capital.
abbrev pub IsPlain : ℕ → Type 0
IsPlain c = (is_space c ≡ false) × (lower c ≡ c)

All-append : (s t : Text) → All IsPlain s → All IsPlain t → All IsPlain (s ++ t)
All-append [] t hs ht = ht
All-append (c ∷ s) t hs ht = (hs.0, All-append s t hs.1 ht)

All-reverse : (s : Text) → All IsPlain s → All IsPlain (reverse s)
All-reverse [] h = tt
All-reverse (c ∷ s) h =
    rw (reverse-cons c s) (All-append (reverse s) (c ∷ []) (All-reverse s h.1) (h.0, tt))

trim_left_plain : (s : Text) → All IsPlain s → trim_left s ≡ s
unfolding trim_left
trim_left_plain [] h = refl
trim_left_plain (c ∷ s) h = rw h.0.0 refl

pub trim_space_plain : (s : Text) → All IsPlain s → trim_space s ≡ s
unfolding trim_space
trim_space_plain s h =
    rw (trim_left_plain s h, trim_left_plain (reverse s) (All-reverse s h), reverse-reverse s)

pub to_lower_plain : (s : Text) → All IsPlain s → to_lower s ≡ s
unfolding to_lower
to_lower_plain [] h = refl
to_lower_plain (c ∷ s) h = rw (h.0.1, to_lower_plain s h.1)
