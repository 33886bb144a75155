-- ===== src/Prelude/Format.antt =====
-- The text formats of Go's standard library that the program hashes or parses: decimal numbers
-- (fmt's %d), hexadecimal (encoding/hex) and JSON strings (encoding/json).
use Prim.Native.Nat.{ℕ, zero, suc, ◌+◌, ◌-◌, ◌*◌, ◌/◌, ◌%◌, ◌<◌}
use mathlib.Core.Path.{◌≡◌, refl, ap}
use mathlib.Core.Bool.{◌&&◌, ◌||◌}
use mathlib.Core.List.{List, [], ◌∷◌, ◌++◌}
use mathlib.Core.Option.{Option, none, some}
use native.Mathlib.Omega.{arith}
use east_validator.Prelude.Tests.{ltb, leb, ◌==◌, if◌then◌else◌}
use east_validator.Prelude.Lists.{All}
use east_validator.Prelude.Int.{two63, two64, two31, two32}
use east_validator.Prelude.Text.{Text, codes, lower, to_lower}

show_from : ℕ → ℕ → Text → Text
show_from zero n digits = digits
show_from (suc fuel) n digits =
    let rest = show_from fuel (n / 10) ((48 + n % 10) ∷ digits) in
    if ltb n 10 then (48 + n) ∷ digits else rest

-- A number has fewer digits than its successor counts, so the fuel is enough.
unfoldable pub show_nat : ℕ → Text
unfolding show_from
show_nat n = show_from (suc n) n []

unfoldable pub show_int64 : ℕ → Text
unfolding show_nat
show_int64 a = if ltb a two63 then show_nat a else b'-' ∷ show_nat (two64 - a)

unfoldable pub show_int32 : ℕ → Text
unfolding show_nat
show_int32 a = if ltb a two31 then show_nat a else b'-' ∷ show_nat (two32 - a)

unfoldable pub hex_digit : ℕ → ℕ
hex_digit d = if ltb d 10 then 48 + d else 87 + d

-- hex.EncodeToString.
unfoldable pub hex_encode : List ℕ → Text
unfolding hex_digit
hex_encode [] = []
hex_encode (b ∷ bs) = hex_digit (b / 16) ∷ hex_digit (b % 16) ∷ hex_encode bs

unfoldable pub hex_value : ℕ → Option ℕ
hex_value c =
    if leb 48 c && leb c 57
    then some (c - 48)
    else if leb 97 c && leb c 102
    then some (c - 87)
    else if leb 65 c && leb c 70
    then some (c - 55)
    else none

hex_pair : Option ℕ → Option ℕ → Option (List ℕ) → Option (List ℕ)
hex_pair (some h) (some l) (some bs) = some ((h * 16 + l) ∷ bs)
hex_pair _ _ _ = none

-- hex.DecodeString.
unfoldable pub hex_decode : Text → Option (List ℕ)
unfolding hex_value hex_pair
hex_decode [] = some []
hex_decode (c ∷ []) = none
hex_decode (c ∷ d ∷ s) = hex_pair (hex_value c) (hex_value d) (hex_decode s)

abbrev pub IsByte : ℕ → Type 0
IsByte b = b < 256

pub hex_value-digit : (d : ℕ) → d < 16 → hex_value (hex_digit d) ≡ some d
unfolding hex_value hex_digit
hex_value-digit d h = ground arith

-- Decoding inverts encoding.
pub hex_decode-encode : (bs : List ℕ) → All IsByte bs → hex_decode (hex_encode bs) ≡ some bs
unfolding hex_decode hex_encode
hex_decode-encode [] h = refl
hex_decode-encode (b ∷ bs) h =
    rw
      (
        hex_value-digit (b / 16) (omega (arith, h.0)),
        hex_value-digit (b % 16) (omega arith),
        hex_decode-encode bs h.1,
      )
      (ground arith)

hex_digit-lower : (d : ℕ) → d < 16 → lower (hex_digit d) ≡ hex_digit d
unfolding hex_digit
hex_digit-lower d h = ground arith

escape : ℕ → Text
unfolding hex_digit
escape c =
    if c == b'"' || c == 92
    then 92 ∷ c ∷ []
    else if c == 10
    then codes "\\n"
    else if c == 13
    then codes "\\r"
    else if c == 9
    then codes "\\t"
    else if ltb c 32 || c == b'<' || c == b'>' || c == b'&'
    then codes "\\u00" ++ hex_digit (c / 16) ∷ hex_digit (c % 16) ∷ []
    else c ∷ []

escape_all : Text → Text
unfolding escape
escape_all [] = []
escape_all (c ∷ s) = escape c ++ escape_all s

-- A JSON string, as json.Marshal writes it.
unfoldable pub quote : Text → Text
unfolding escape_all
quote s = b'"' ∷ (escape_all s ++ b'"' ∷ [])

-- The digits are those of lower case.
pub to_lower-hex_encode : (bs : List ℕ) → All IsByte bs → to_lower (hex_encode bs) ≡ hex_encode bs
unfolding hex_encode to_lower
to_lower-hex_encode [] h = refl
to_lower-hex_encode (b ∷ bs) h =
    rw (hex_digit-lower (b / 16) (omega (arith, h.0)), hex_digit-lower (b % 16) (omega arith))
      (ap (λ s. hex_digit (b / 16) ∷ hex_digit (b % 16) ∷ s) (to_lower-hex_encode bs h.1))
