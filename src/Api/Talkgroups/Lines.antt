-- ===== src/Api/Talkgroups/Lines.antt =====
-- The lines of the file that apps/control-plane/src/api.rs exports, as `str::lines` finds them.
use mathlib.Core.List.{reverse_aux, reverse-reverse, append_assoc}
use trunk_scope.Common.{
  ℕ, zero, suc, ◌/◌, ◌%◌, ◌+◌, ◌≡◌, refl, ap, ◌∙◌, Bool, true, false, not, ◌||◌, List, [], ◌∷◌,
  ◌++◌, reverse, arith, ltb, ◌==◌, if◌then◌else◌, any, map, All, Text, is_empty, trim, decimal,
  is_whitespace, codes, id_eq, text_key,
}
use trunk_scope.Common.Digits.{any-decimal, trim_filled}
use trunk_scope.Domain.{Talkgroup}
use trunk_scope.Imports.{without_return, lines_from, lines, filled_lines}
use trunk_scope.Api.Talkgroups.{
  doubled, escaped, hex_from, hex_3, csv_line, csv_row, csv_rows, csv_header, talkgroup_csv,
}

-- A line feed or a carriage return.
abbrev pub is_break : ℕ → Bool
is_break c = c == 10 || c == 13

without_return_plain : (cur : Text) → any is_break cur ≡ false → without_return cur ≡ reverse cur
without_return_plain [] h = refl
without_return_plain (c ∷ cur) h = let kept : (c == 13) ≡ false = ground (arith, h) in rw kept refl

lines_from-line :
    (cur s rest : Text)
    → any is_break cur ≡ false
    → any is_break s ≡ false
    → lines_from cur (s ++ 10 ∷ rest) ≡ reverse (reverse_aux s cur) ∷ lines_from [] rest
unfolding lines_from
lines_from-line [] [] rest h k = refl
lines_from-line (d ∷ cur) [] rest h k =
    ap (λ l. l ∷ lines_from [] rest) (without_return_plain (d ∷ cur) h)
lines_from-line [] (c ∷ s) rest h k =
    let inner : (c == 10) ≡ false = ground (arith, k) in
    rw inner (lines_from-line (c ∷ []) s rest (ground (arith, k)) (ground (arith, k)))
lines_from-line (d ∷ cur) (c ∷ s) rest h k =
    let inner : (c == 10) ≡ false = ground (arith, k) in
    rw inner (lines_from-line (c ∷ d ∷ cur) s rest (ground (arith, h, k)) (ground (arith, k)))

-- A line without a break inside is found.
lines-line : (s rest : Text) → any is_break s ≡ false → lines (s ++ 10 ∷ rest) ≡ s ∷ lines rest
unfolding lines
lines-line s rest h =
    lines_from-line [] s rest refl h ∙ ap (λ l. l ∷ lines_from [] rest) (reverse-reverse s)

pub any_append : (p : ℕ → Bool) (s t : Text) → any p (s ++ t) ≡ (any p s || any p t)
any_append p [] t = refl
any_append p (c ∷ s) t = ground (arith, any_append p s t)

any-hex_from :
    (p : ℕ → Bool)
    → ((n : ℕ) → p (if ltb (n % 16) 10 then 48 + n % 16 else 55 + n % 16) ≡ false)
    → (fuel n : ℕ) (rest : Text) → any p rest ≡ false
    → any p (hex_from fuel n rest) ≡ false
unfolding hex_from
any-hex_from p digit zero n rest h = h
any-hex_from p digit (suc fuel) n rest h = ground (
  arith,
  h,
  digit n,
  any-hex_from p digit fuel (n / 16)
      ((if ltb (n % 16) 10 then 48 + n % 16 else 55 + n % 16) ∷ rest),
)

pub any-hex_3 :
    (p : ℕ → Bool)
    → ((n : ℕ) → p (if ltb (n % 16) 10 then 48 + n % 16 else 55 + n % 16) ≡ false)
    → p 48 ≡ false
    → (n : ℕ) → any p (hex_3 n) ≡ false
unfolding hex_3
any-hex_3 p digit nought n = ground (arith, nought, any-hex_from p digit 8 n [] refl)

any-doubled : (s : Text) → any is_break (doubled s) ≡ any is_break s
unfolding doubled
any-doubled [] = refl
any-doubled (c ∷ s) = ground (arith, any-doubled s)

any-escaped : (s : Text) → any is_break s ≡ false → any is_break (escaped s) ≡ false
any-escaped s h = any_append is_break (doubled s) (codes "\"") ∙ ground (arith, any-doubled s, h)

-- No text of a talkgroup has a line break.
abbrev pub IsUnbroken : Talkgroup → Type 0
IsUnbroken t =
    (any is_break t.alpha_tag ≡ false)
    × (any is_break t.description ≡ false)
    × (any is_break t.category ≡ false)

-- A field in front of a comma.
any-field :
    (s rest : Text)
    → any is_break s ≡ false
    → any is_break rest ≡ false
    → any is_break (s ++ b',' ∷ rest) ≡ false
any-field s rest h k = any_append is_break s (b',' ∷ rest) ∙ ground (arith, h, k)

any-csv_line : (t : Talkgroup) → IsUnbroken t → any is_break (csv_line t) ≡ false
unfolding csv_line
any-csv_line t (alpha, description, category) =
    let from_tag = escaped t.category ++ b',' ∷ escaped t.category in
    let from_description = escaped t.description ++ b',' ∷ from_tag in
    let from_mode = codes "D" ++ b',' ∷ from_description in
    let from_alpha = escaped t.alpha_tag ++ b',' ∷ from_mode in
    let tag = any-escaped t.category category in
    any-field (decimal t.decimal_id) (hex_3 t.decimal_id ++ b',' ∷ from_alpha)
      (any-decimal is_break t.decimal_id (λ d k. ground (arith, k)))
      (any-field (hex_3 t.decimal_id) from_alpha
        (any-hex_3 is_break (λ n. ground arith) refl t.decimal_id)
        (any-field (escaped t.alpha_tag) from_mode (any-escaped t.alpha_tag alpha) (
          any-field (codes "D") from_description refl (
            any-field (escaped t.description) from_tag (any-escaped t.description description)
              (any-field (escaped t.category) (escaped t.category) tag tag)))))

-- A text with a comma is not blank.
comma-filled : (s rest : Text) → is_empty (trim (s ++ b',' ∷ rest)) ≡ false
unfolding is_whitespace
comma-filled s rest =
    trim_filled (s ++ b',' ∷ rest)
      (any_append (λ c. not (is_whitespace c)) s (b',' ∷ rest) ∙ either _)
  where
    either : (b : Bool) → (b || any (λ c. not (is_whitespace c)) (b',' ∷ rest)) ≡ true
    either true = refl
    either false = refl

csv_line-filled : (t : Talkgroup) → is_empty (trim (csv_line t)) ≡ false
unfolding csv_line
csv_line-filled t = comma-filled (decimal t.decimal_id) _

filled_lines-line :
    (s rest : Text)
    → any is_break s ≡ false
    → is_empty (trim s) ≡ false
    → filled_lines (s ++ 10 ∷ rest) ≡ s ∷ filled_lines rest
filled_lines-line s rest h k = rw (lines-line s rest h) (rw k refl)

csv_row-append : (t : Talkgroup) (rest : Text) → csv_row t ++ rest ≡ csv_line t ++ 10 ∷ rest
unfolding csv_row
csv_row-append t rest = append_assoc (csv_line t) (10 ∷ []) rest

filled_lines-csv_rows :
    (items : List Talkgroup)
    → All IsUnbroken items
    → filled_lines (csv_rows items) ≡ map csv_line items
filled_lines-csv_rows [] h = unfold lines lines_from in refl
filled_lines-csv_rows (t ∷ items) (h, hs) =
    ap filled_lines (csv_row-append t (csv_rows items))
    ∙ filled_lines-line (csv_line t) (csv_rows items) (any-csv_line t h) (csv_line-filled t)
    ∙ ap (λ l. csv_line t ∷ l) (filled_lines-csv_rows items hs)

-- The lines of the exported file are its header and the rows of the talkgroups.
pub filled_lines-talkgroup_csv :
    (items : List Talkgroup)
    → All IsUnbroken items
    → filled_lines (talkgroup_csv items) ≡ csv_header ∷ map csv_line items
unfolding talkgroup_csv
filled_lines-talkgroup_csv items h =
    filled_lines-line csv_header (csv_rows items) refl (unfold trim in refl)
    ∙ ap (λ l. csv_header ∷ l) (filled_lines-csv_rows items h)
