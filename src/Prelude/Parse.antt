-- ===== src/Prelude/Parse.antt =====
-- Go's strconv, and fmt's %x: numbers read from text and shown in hexadecimal.
use Prim.Native.Nat.{ℕ, zero, suc, ◌+◌, ◌-◌, ◌*◌, ◌/◌, ◌%◌, ◌<◌}
use mathlib.Core.Path.{◌≡◌, refl, sym, ap, ◌∙◌}
use mathlib.Core.Logic.{inl, inr}
use mathlib.Core.Bool.{false≢true, Bool, true, false}
use mathlib.Core.List.{[], ◌∷◌}
use mathlib.Core.Option.{none, some}
use native.Mathlib.Omega.{arith}
use east_validator.Prelude.Tests.{ltb, leb, ◌==◌, if◌then◌else◌, Bool-cases}
use east_validator.Prelude.Int.{two63, two64}
use east_validator.Prelude.Lists.{All}
use east_validator.Prelude.Text.Plain.{IsPlain}
use east_validator.Prelude.Text.{is_space, Text, is_empty}
use east_validator.Prelude.Format.{hex_digit, hex_value, hex_value-digit}

-- A number, or one of the two errors.
pub data Parsed : Type 0 where
  value : ℕ → Parsed
  bad_syntax out_of_range : Parsed

-- The digits of ParseUint in a base up to 16, in 64 bits; the first fault decides.
read_digits : ℕ → ℕ → Text → Parsed
read_digits base acc [] = value acc
read_digits base acc (c ∷ s) = elim (hex_value c) [
  | none ↦ bad_syntax
  | some d ↦
      let more = read_digits base (acc * base + d) s in
      if leb base d then bad_syntax else if leb two64 (acc * base + d) then out_of_range else more
]

unfoldable pub parse_uint : ℕ → Text → Parsed
unfolding read_digits
parse_uint base [] = bad_syntax
parse_uint base (c ∷ s) = read_digits base 0 (c ∷ s)

-- The number as an int64 pattern, and whether there is no error: out of range the number is the
-- nearest int64, and 0 if the text is no number.
abbrev positive : Parsed → ℕ × Bool
positive bad_syntax = (0, false)
positive out_of_range = (two63 - 1, false)
positive (value n) = if ltb n two63 then (n, true) else (two63 - 1, false)

abbrev negative : Parsed → ℕ × Bool
negative bad_syntax = (0, false)
negative out_of_range = (two63, false)
negative (value n) = if leb n two63 then ((two64 - n) % two64, true) else (two63, false)

-- ParseInt in base 10 and 64 bits, and Atoi.
unfoldable pub parse_int : Text → ℕ × Bool
unfolding parse_uint
parse_int [] = (0, false)
parse_int (c ∷ s) =
    if c == b'-'
    then negative (parse_uint 10 s)
    else if c == b'+'
    then positive (parse_uint 10 s)
    else positive (parse_uint 10 (c ∷ s))

show_hex_from : ℕ → ℕ → Text → Text
show_hex_from zero n digits = digits
show_hex_from (suc fuel) n digits =
    let rest = show_hex_from fuel (n / 16) (hex_digit (n % 16) ∷ digits) in
    if ltb n 16 then hex_digit n ∷ digits else rest

-- fmt's %x; the fuel is enough as in `show_nat`.
unfoldable pub show_hex : ℕ → Text
unfolding show_hex_from
show_hex n = show_hex_from (suc n) n []

unfoldable pub show_hex64 : ℕ → Text
unfolding show_hex
show_hex64 a = if ltb a two63 then show_hex a else b'-' ∷ show_hex (two64 - a)

read_digits-hex_digit :
    (acc d : ℕ) (s : Text)
    → d < 16
    → acc * 16 + d < two64
    → read_digits 16 acc (hex_digit d ∷ s) ≡ read_digits 16 (acc * 16 + d) s
unfolding read_digits
read_digits-hex_digit acc d s low fits =
    rw (hex_value-digit d low, read_digits) (ground (arith, low, fits))

whole : (n : ℕ) → n / 16 * 16 + n % 16 ≡ n
whole n = omega arith

no_more : (n : ℕ) → 0 * 16 + n ≡ n
no_more n = omega arith

read_digits-show_hex_from :
    (fuel n : ℕ) (digits : Text)
    → n < fuel
    → n < two64
    → read_digits 16 0 (show_hex_from fuel n digits) ≡ read_digits 16 n digits
unfolding show_hex_from
read_digits-show_hex_from zero n digits enough fits = absurd (omega (arith, enough))
read_digits-show_hex_from (suc fuel) n digits enough fits = elim (Bool-cases (ltb n 16)) [
  | inl e ↦ rw e (
      read_digits-hex_digit 0 n digits (ground (arith, e)) (omega (arith, fits))
      ∙ ap (λ m. read_digits 16 m digits) (no_more n))
  | inr e ↦
      let low : n % 16 < 16 = omega arith in
      rw e (
        read_digits-show_hex_from fuel (n / 16) (hex_digit (n % 16) ∷ digits)
          (ground (arith, e, enough)) (omega (arith, fits))
        ∙ (read_digits-hex_digit (n / 16) (n % 16) digits low (omega (arith, fits))
            ∙ ap (λ m. read_digits 16 m digits) (whole n)))
]

show_hex_from_not_empty :
    (fuel n c : ℕ) (digits : Text) → is_empty (show_hex_from fuel n (c ∷ digits)) ≡ false
unfolding show_hex_from
show_hex_from_not_empty zero n c digits = refl
show_hex_from_not_empty (suc fuel) n c digits = elim (Bool-cases (ltb n 16)) [
  | inl e ↦ rw e refl
  | inr e ↦ rw e (show_hex_from_not_empty fuel (n / 16) (hex_digit (n % 16)) (c ∷ digits))
]

show_hex_not_empty : (n : ℕ) → is_empty (show_hex n) ≡ false
unfolding show_hex show_hex_from
show_hex_not_empty n = elim (Bool-cases (ltb n 16)) [
  | inl e ↦ rw e refl
  | inr e ↦ rw e (show_hex_from_not_empty n (n / 16) (hex_digit (n % 16)) [])
]

parse_uint_not_empty :
    (base : ℕ) (s : Text) → is_empty s ≡ false → parse_uint base s ≡ read_digits base 0 s
unfolding parse_uint
parse_uint_not_empty base [] h = absurd (false≢true (sym h))
parse_uint_not_empty base (c ∷ s) h = refl

-- Reading inverts showing.
pub parse_uint-show_hex : (n : ℕ) → n < two64 → parse_uint 16 (show_hex n) ≡ value n
unfolding show_hex read_digits
parse_uint-show_hex n fits =
    parse_uint_not_empty 16 (show_hex n) (show_hex_not_empty n)
    ∙ read_digits-show_hex_from (suc n) n [] (omega arith) fits

hex_digit-IsPlain : (d : ℕ) → d < 16 → IsPlain (hex_digit d)
unfolding hex_digit is_space
hex_digit-IsPlain d low = (ground (arith, low), ground (arith, low))

show_hex_from-IsPlain :
    (fuel n : ℕ) (digits : Text) → All IsPlain digits → All IsPlain (show_hex_from fuel n digits)
unfolding show_hex_from
show_hex_from-IsPlain zero n digits plain = plain
show_hex_from-IsPlain (suc fuel) n digits plain = elim (Bool-cases (ltb n 16)) [
  | inl e ↦ rw e (hex_digit-IsPlain n (ground (arith, e)), plain)
  | inr e ↦ rw e (
      show_hex_from-IsPlain fuel (n / 16) (hex_digit (n % 16) ∷ digits)
        (hex_digit-IsPlain (n % 16) (omega arith), plain))
]

-- It has no spaces and no capitals.
pub show_hex-IsPlain : (n : ℕ) → All IsPlain (show_hex n)
unfolding show_hex
show_hex-IsPlain n = show_hex_from-IsPlain (suc n) n [] tt
