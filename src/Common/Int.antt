-- ===== src/Common/Int.antt =====
-- Signed integers: `negsuc n` is -(n + 1).
use Prim.Native.Nat.{ℕ, zero, suc}
use mathlib.Core.Option.{Option, none, some}
use mathlib.Core.List.{[], ◌∷◌}
use mathlib.Core.Bool.{Bool, true, false}
use trunk_scope.Common.Tests.{if◌then◌else◌, ◌==◌, leb}
use trunk_scope.Common.Strings.{Text, below, parse_digits, parse_uint}

pub data ℤ : Type 0 where
  pos : ℕ → ℤ
  negsuc : ℕ → ℤ

abbrev pub negate : ℕ → ℤ
negate zero = pos 0
negate (suc n) = negsuc n

abbrev as_pos : Option ℕ → Option ℤ
as_pos none = none
as_pos (some n) = some (pos n)

abbrev as_neg : Option ℕ → Option ℤ
as_neg none = none
as_neg (some n) = some (negate n)

abbrev digits? : Text → Option ℕ
digits? [] = none
digits? (c ∷ s) = parse_digits 0 (c ∷ s)

-- `str::parse::<i64>`.
unfoldable pub parse_i64 : Text → Option ℤ
unfolding parse_uint parse_digits
parse_i64 [] = none
parse_i64 (c ∷ s) =
    if c == b'-'
    then as_neg (below 9223372036854775809 (digits? s))
    else as_pos (parse_uint 9223372036854775808 (c ∷ s))

abbrev pub le_int : ℤ → ℤ → Bool
le_int (pos m) (pos n) = leb m n
le_int (pos m) (negsuc n) = false
le_int (negsuc m) (pos n) = true
le_int (negsuc m) (negsuc n) = leb n m

-- `max`, `min` and `clamp` of signed integers.
abbrev pub max_int : ℤ → ℤ → ℤ
max_int a b = if le_int a b then b else a

abbrev pub min_int : ℤ → ℤ → ℤ
min_int a b = if le_int a b then a else b

abbrev pub clamp_int : ℤ → ℤ → ℤ → ℤ
clamp_int low high n = min_int high (max_int low n)
