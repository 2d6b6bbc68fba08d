-- ===== src/Imports.antt =====
-- Lines of comma-separated values, apps/control-plane/src/imports.rs; the kinds of file are in the
-- modules below.
pub mod Quoted
pub mod Sites
pub mod Systems
pub mod Talkgroups
use trunk_scope.Common.{
  ℕ, ◌≡◌, refl, Bool, false, not, ◌&&◌, List, [], ◌∷◌, reverse, arith, ◌==◌, if◌then◌else◌, retain,
  Text, codes, is_empty, trim, trim_by, id_eq, text_key, Eq,
}

-- The line as read so far: the fields closed, the open one, latest first, and whether a quotation
-- mark is open.
pub record Reading : Type 0 where
  pub fields : List Text
  pub current : Text
  pub in_quotes : Bool

-- `fields.push(current.trim().to_string()); current.clear();`
abbrev pub close_field : Reading → Reading
close_field r = record r { fields = trim (reverse r.current) ∷ r.fields; current = [] }

unfoldable pub read_char : Reading → ℕ → Reading
unfolding trim
read_char r c =
    if c == b'"'
    then record r { in_quotes = not r.in_quotes }
    else if (c == b',') && not r.in_quotes
    then close_field r
    else record r { current = c ∷ r.current }

unfoldable pub read_chars : Reading → Text → Reading
unfolding read_char
read_chars r [] = r
read_chars r (c ∷ line) = read_chars (read_char r c) line

abbrev pub start : Reading
start = record { fields = []; current = []; in_quotes = false }

unfoldable pub split_csv_line : Text → List Text
unfolding read_chars
split_csv_line line = reverse (close_field (read_chars start line)).fields

-- `str::lines`: the ends of line fall away, and a carriage return in front of one.
abbrev pub without_return : Text → Text
without_return [] = []
without_return (c ∷ cur) = if c == 13 then reverse cur else reverse (c ∷ cur)

unfoldable pub lines_from : Text → Text → List Text
lines_from [] [] = []
lines_from (c ∷ cur) [] = reverse (c ∷ cur) ∷ []
lines_from cur (c ∷ text) =
    let closed = without_return cur ∷ lines_from [] text in
    let longer = lines_from (c ∷ cur) text in if c == 10 then closed else longer

unfoldable pub lines : Text → List Text
unfolding lines_from
lines = lines_from []

-- `csv.lines().filter(|line| !line.trim().is_empty())`
abbrev pub filled_lines : Text → List Text
filled_lines csv = retain (λ line. not (is_empty (trim line))) (lines csv)

-- `trim().trim_matches('"')`
abbrev pub unquoted : Text → Text
unquoted text = trim_by (λ c. c == b'"') (trim text)

split_tests :
    (split_csv_line (codes " a ,\"b, c\",,\"d\"") ≡ codes "a" ∷ codes "b, c" ∷ [] ∷ codes "d" ∷ [])
    × (lines (b'a' ∷ 13 ∷ 10 ∷ 10 ∷ b'b' ∷ []) ≡ codes "a" ∷ [] ∷ codes "b" ∷ [])
unfolding split_csv_line lines
split_tests = (refl, refl)
