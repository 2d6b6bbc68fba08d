-- ===== src/Common/Float.antt =====
-- `f32` as its bit pattern (IEEE 754 binary32), with the comparisons that the program makes. The
-- operations that round (parsing, arithmetic, printing) are parameters where they are used.
use Prim.Native.Nat.{ℕ, ◌%◌}
use mathlib.Core.Bool.{Bool, not, ◌&&◌}
use trunk_scope.Common.Tests.{ltb, leb, ◌==◌, if◌then◌else◌}

abbrev pub F32 : Type 0
F32 = ℕ

-- The bit pattern of an `f64`.
abbrev pub F64 : Type 0
F64 = ℕ

-- The bits below the sign.
abbrev pub magnitude : F32 → ℕ
magnitude x = x % 2147483648

abbrev pub is_negative : F32 → Bool
is_negative x = leb 2147483648 x

abbrev pub infinity : F32
infinity = 0x7f80_0000

abbrev pub is_nan : F32 → Bool
is_nan x = ltb infinity (magnitude x)

abbrev pub is_finite : F32 → Bool
is_finite x = ltb (magnitude x) infinity

-- The order of two numbers that are no NaN; the two zeros are equal.
unfoldable pub lt_ordered : F32 → F32 → Bool
lt_ordered x y =
    if is_negative x
    then if is_negative y
      then ltb (magnitude y) (magnitude x)
      else not ((magnitude x == 0) && (magnitude y == 0))
    else (not (is_negative y)) && ltb (magnitude x) (magnitude y)

-- `x < y`; false if either is a NaN.
unfoldable pub lt32 : F32 → F32 → Bool
unfolding lt_ordered
lt32 x y = (not (is_nan x)) && (not (is_nan y)) && lt_ordered x y

-- `x <= y`.
unfoldable pub le32 : F32 → F32 → Bool
unfolding lt_ordered
le32 x y = (not (is_nan x)) && (not (is_nan y)) && not (lt_ordered y x)

-- `f32::max`: of a NaN and a number, the number.
unfoldable pub max32 : F32 → F32 → F32
unfolding lt_ordered
max32 x y = if is_nan x then y else if is_nan y then x else if lt_ordered x y then y else x

abbrev pub f32_0 : F32
f32_0 = 0

abbrev pub f32_neg_20 : F32
f32_neg_20 = 0xc1a0_0000

abbrev pub f32_neg_70 : F32
f32_neg_70 = 0xc28c_0000

abbrev pub f32_neg_120 : F32
f32_neg_120 = 0xc2f0_0000

abbrev pub f32_neg_200 : F32
f32_neg_200 = 0xc348_0000
