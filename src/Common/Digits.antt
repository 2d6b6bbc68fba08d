-- ===== src/Common/Digits.antt =====
-- The decimal digits of a number, read back, and texts without blanks.
use mathlib.Core.List.{reverse_aux, reverse-reverse}
use trunk_scope.Common.{
  ℕ, zero, suc, ◌+◌, ◌-◌, ◌*◌, ◌/◌, ◌%◌, ◌<◌, ◌≡◌, refl, ◌∙◌, ap, Bool, true, false, not, ◌||◌, [],
  ◌∷◌, reverse, some, arith, ltb, ◌==◌, Bool-cases, inl, inr, any, Text, is_empty, parse_digits,
  parse_uint, below, is_digit, decimal, decimal_from, is_whitespace, trim, trim_by, trim_start_by,
  trim_end_by,
}

abbrev tens : ℕ → ℕ
tens zero = 1
tens (suc fuel) = 10 * tens fuel

zero_below : (n : ℕ) → n < 1 → n ≡ 0
zero_below n h = omega arith

digit_lem :
    (n : ℕ) (rest : Text) → parse_digits (n / 10) ((48 + n % 10) ∷ rest) ≡ parse_digits n rest
unfolding parse_digits
digit_lem n rest =
    let digit : is_digit (48 + n % 10) ≡ true = ground arith in
    let value : (n / 10) * 10 + ((48 + n % 10) - 48) ≡ n = omega arith in rw (digit, value) refl

parse_digits-decimal_from :
    (fuel n : ℕ) (rest : Text)
    → n < tens fuel
    → parse_digits 0 (decimal_from fuel n rest) ≡ parse_digits n rest
unfolding parse_digits decimal_from
parse_digits-decimal_from zero n rest h = rw (zero_below n h) refl
parse_digits-decimal_from (suc fuel) n rest h = elim (Bool-cases (ltb n 10)) [
  | inl e ↦ rw (e, decimal_from) (ground (arith, e))
  | inr e ↦
      rw (e, decimal_from)
        (parse_digits-decimal_from fuel (n / 10) ((48 + n % 10) ∷ rest) (omega arith)
          ∙ digit_lem n rest)
]

-- Every character of a number passes what all digits pass.
all-decimal_from :
    (p : ℕ → Bool)
    → ((d : ℕ) → d < 10 → p (48 + d) ≡ false)
    → (fuel n : ℕ) (rest : Text) → any p rest ≡ false
    → any p (decimal_from fuel n rest) ≡ false
unfolding decimal_from
all-decimal_from p h zero n rest k = k
all-decimal_from p h (suc fuel) n rest k = elim (Bool-cases (ltb n 10)) [
  | inl e ↦ rw (e, decimal_from) (rw (h n (ground (arith, e))) k)
  | inr e ↦
      rw (e, decimal_from)
        (all-decimal_from p h fuel (n / 10) ((48 + n % 10) ∷ rest)
          (rw (h (n % 10) (omega arith)) k))
]

pub any-decimal :
    (p : ℕ → Bool) (n : ℕ) → ((d : ℕ) → d < 10 → p (48 + d) ≡ false) → any p (decimal n) ≡ false
unfolding decimal
any-decimal p n h = all-decimal_from p h 20 n [] refl

starts_with_digit : Text → Bool
starts_with_digit [] = false
starts_with_digit (c ∷ s) = is_digit c

starts_with_digit-decimal_from :
    (fuel n : ℕ) (c : ℕ) (rest : Text)
    → is_digit c ≡ true
    → starts_with_digit (decimal_from fuel n (c ∷ rest)) ≡ true
unfolding decimal_from starts_with_digit
starts_with_digit-decimal_from zero n c rest h = h
starts_with_digit-decimal_from (suc fuel) n c rest h = elim (Bool-cases (ltb n 10)) [
  | inl e ↦ rw (e, decimal_from) (ground (arith, e))
  | inr e ↦
      rw (e, decimal_from)
        (starts_with_digit-decimal_from fuel (n / 10) (48 + n % 10) (c ∷ rest) (ground arith))
]

starts_with_digit-decimal : (n : ℕ) → starts_with_digit (decimal n) ≡ true
unfolding decimal decimal_from starts_with_digit
starts_with_digit-decimal n = elim (Bool-cases (ltb n 10)) [
  | inl e ↦ rw (e, decimal_from) (ground (arith, e))
  | inr e ↦
      rw (e, decimal_from)
        (starts_with_digit-decimal_from 19 (n / 10) (48 + n % 10) [] (ground arith))
]

parse_uint-digits :
    (bound : ℕ) (s : Text)
    → starts_with_digit s ≡ true
    → parse_uint bound s ≡ below bound (parse_digits 0 s)
unfolding parse_uint starts_with_digit
parse_uint-digits bound [] h = cc
parse_uint-digits bound (c ∷ []) h =
    let plus : (c == b'+') ≡ false = ground (arith, h) in rw plus refl
parse_uint-digits bound (c ∷ d ∷ s) h =
    let plus : (c == b'+') ≡ false = ground (arith, h) in rw plus refl

-- A number below 10 ^ 20 and below the bound is read back from its decimal digits.
pub parse_uint-decimal :
    (bound n : ℕ) → n < bound → n < 100000000000000000000 → parse_uint bound (decimal n) ≡ some n
unfolding decimal parse_digits
parse_uint-decimal bound n h k =
    parse_uint-digits bound (decimal n) (starts_with_digit-decimal n)
    ∙ ap (below bound) (parse_digits-decimal_from 20 n [] k)
    ∙ ground (arith, h)

any-reverse_aux : (p : ℕ → Bool) (s t : Text) → any p (reverse_aux s t) ≡ (any p s || any p t)
any-reverse_aux p [] t = refl
any-reverse_aux p (c ∷ s) t = any-reverse_aux p s (c ∷ t) ∙ ground arith

trim_start_by_plain : (p : ℕ → Bool) (s : Text) → any p s ≡ false → trim_start_by p s ≡ s
unfolding trim_start_by
trim_start_by_plain p [] h = refl
trim_start_by_plain p (c ∷ s) h = let first : p c ≡ false = ground (arith, h) in rw first refl

-- A text without blanks is trimmed.
pub trim_plain : (s : Text) → any is_whitespace s ≡ false → trim s ≡ s
unfolding trim trim_by trim_end_by
trim_plain s h =
    let back : any is_whitespace (reverse s) ≡ false =
      any-reverse_aux is_whitespace s [] ∙ ground (arith, h) in
    rw (trim_start_by_plain is_whitespace s h)
      (rw (trim_start_by_plain is_whitespace (reverse s) back) (reverse-reverse s))

any-trim_start_by :
    (p : ℕ → Bool) (s : Text) → any (λ c. not (p c)) (trim_start_by p s) ≡ any (λ c. not (p c)) s
unfolding trim_start_by
any-trim_start_by p [] = refl
any-trim_start_by p (c ∷ s) = ground (arith, any-trim_start_by p s)

-- A text with a character that is not blank is not blank.
pub trim_filled : (s : Text) → any (λ c. not (is_whitespace c)) s ≡ true → is_empty (trim s) ≡ false
unfolding trim trim_by trim_end_by
trim_filled s h =
    let start = trim_start_by is_whitespace s in
    let filled : any (λ c. not (is_whitespace c)) (trim s) ≡ true =
      any-reverse_aux (λ c. not (is_whitespace c)) (trim_start_by is_whitespace (reverse start)) []
      ∙ ground (
        arith,
        any-trim_start_by is_whitespace (reverse start),
        any-reverse_aux (λ c. not (is_whitespace c)) start [],
        any-trim_start_by is_whitespace s,
        h,
      ) in
    nonempty (trim s) filled
  where
    nonempty : (t : Text) → any (λ c. not (is_whitespace c)) t ≡ true → is_empty t ≡ false
    nonempty [] k = cc
    nonempty (c ∷ t) k = refl
