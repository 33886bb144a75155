-- ===== src/Prelude/Int.antt =====
-- Go's int64 and int32 as two's complement bit patterns: a number below 2^64 or 2^32, where a
-- pattern from 2^63 or 2^31 on stands for a negative number. Sums and products wrap.
use Prim.Native.Nat.{ℕ, ◌+◌, ◌-◌, ◌*◌, ◌/◌, ◌%◌, ◌≤◌, ◌<◌}
use mathlib.Core.Path.{◌≡◌}
use mathlib.Core.Bool.{Bool, not}
use native.Mathlib.Omega.{arith}
use east_validator.Prelude.Tests.{ltb, if◌then◌else◌}

abbrev pub two62 : ℕ
two62 = 4611686018427387904

abbrev pub two63 : ℕ
two63 = 9223372036854775808

abbrev pub two64 : ℕ
two64 = 18446744073709551616

abbrev pub two31 : ℕ
two31 = 2147483648

abbrev pub two32 : ℕ
two32 = 4294967296

infixl 65 ◌+64◌ ◌-64◌
infixl 70 ◌*64◌
abbrev pub ◌+64◌ : ℕ → ℕ → ℕ
a +64 b = (a + b) % two64

abbrev pub ◌-64◌ : ℕ → ℕ → ℕ
a -64 b = (a + (two64 - b)) % two64

abbrev pub ◌*64◌ : ℕ → ℕ → ℕ
a *64 b = (a * b) % two64

-- Signed order: shifting by 2^63 puts the negative patterns below the others.
abbrev pub lt64 : ℕ → ℕ → Bool
lt64 a b = ltb ((a + two63) % two64) ((b + two63) % two64)

abbrev pub le64 : ℕ → ℕ → Bool
le64 a b = not (lt64 b a)

abbrev pub lt32 : ℕ → ℕ → Bool
lt32 a b = ltb ((a + two31) % two32) ((b + two31) % two32)

-- `x++` on an int32 and on a uint64.
abbrev pub inc32 : ℕ → ℕ
inc32 a = (a + 1) % two32

abbrev pub inc64 : ℕ → ℕ
inc64 a = (a + 1) % two64

-- -1 as an int32.
abbrev pub minus_one32 : ℕ
minus_one32 = 4294967295

-- The size of a signed number, and Go's division, which rounds towards 0.
abbrev pub magnitude : ℕ → ℕ
magnitude a = if ltb a two63 then a else two64 - a

abbrev pub neg64 : ℕ → ℕ
neg64 a = (two64 - a) % two64

unfoldable pub div64 : ℕ → ℕ → ℕ
div64 a b =
    if ltb a two63
    then (if ltb b two63 then a / b else neg64 (a / magnitude b))
    else (if ltb b two63 then neg64 (magnitude a / b) else magnitude a / magnitude b)

pub lt64_nonneg : (a b : ℕ) → a < two63 → b < two63 → lt64 a b ≡ ltb a b
lt64_nonneg a b ha hb = ground arith

pub add64_small : (a b : ℕ) → a + b < two63 → a +64 b ≡ a + b
add64_small a b h = omega arith

pub sub64_small : (a b : ℕ) → a < two64 → b ≤ a → a -64 b ≡ a - b
sub64_small a b h k = omega arith
