-- ===== src/Common/Float.antt =====
-- Rust's f64 as its 64-bit pattern: the comparisons and the tests that the program makes of one.
-- Arithmetic on f64 is a parameter of the definitions that use it.
use Prim.Native.Nat.{ℕ, ◌%◌}
use mathlib.Core.Bool.{Bool, true, not, ◌&&◌}
use starkbot_neo.Common.Tests.{ltb, leb, ◌==◌, if◌then◌else◌}

abbrev pub F64 : Type 0
F64 = ℕ

abbrev sign_bit : ℕ
sign_bit = 0x8000_0000_0000_0000

abbrev infinity : ℕ
infinity = 0x7ff0_0000_0000_0000

abbrev pub f64_zero : F64
f64_zero = 0

abbrev pub f64_minus_zero : F64
f64_minus_zero = 0x8000_0000_0000_0000

abbrev pub f64_one : F64
f64_one = 0x3ff0_0000_0000_0000

abbrev pub magnitude : F64 → ℕ
magnitude x = x % sign_bit

abbrev pub is_negative : F64 → Bool
is_negative x = leb sign_bit x

abbrev pub is_nan : F64 → Bool
is_nan x = ltb infinity (magnitude x)

unfoldable pub is_finite : F64 → Bool
is_finite x = ltb (magnitude x) infinity

-- The order of two numbers, the two zeros equal.
abbrev pub ordered_le : F64 → F64 → Bool
ordered_le a b =
    if is_negative a
    then (if is_negative b then leb (magnitude b) (magnitude a) else true)
    else (if is_negative b
        then magnitude a == 0 && magnitude b == 0
        else leb (magnitude a) (magnitude b))

-- `a <= b`; a comparison with a NaN is false.
unfoldable pub f64_le : F64 → F64 → Bool
f64_le a b = not (is_nan a) && not (is_nan b) && ordered_le a b

-- `a >= b`.
unfoldable pub f64_ge : F64 → F64 → Bool
unfolding f64_le
f64_ge a b = f64_le b a

-- `a < b`.
unfoldable pub f64_lt : F64 → F64 → Bool
f64_lt a b = not (is_nan a) && not (is_nan b) && not (ordered_le b a)

-- `(0.0..=1.0).contains(&x)` of a finite x.
unfoldable pub is_unit : F64 → Bool
unfolding is_finite f64_le
is_unit x = is_finite x && f64_le f64_zero x && f64_le x f64_one
