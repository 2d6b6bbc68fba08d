-- ===== src/Api/Talkgroups/Export.antt =====
-- The rows that apps/control-plane/src/api.rs exports, as apps/control-plane/src/imports.rs reads
-- them.
use trunk_scope.Common.{
  ℕ, ◌<◌, ◌≡◌, refl, ap, ◌∙◌, Bool, false, ◌||◌, some, List, [], ◌∷◌, ◌++◌, reverse, arith, ◌==◌,
  any, map, All, Text, codes, is_empty, trim, parse_uint, decimal, id_eq, text_key,
}
use mathlib.Core.List.{reverse_aux, reverse-reverse}
use trunk_scope.Common.{is_whitespace}
use trunk_scope.Common.Digits.{any-decimal, parse_uint-decimal, trim_plain}
use trunk_scope.Domain.{Talkgroup}
use trunk_scope.Imports.{filled_lines, Reading, start, read_char, read_chars, split_csv_line}
use trunk_scope.Imports.Quoted.{quoted_field, IsPlain, read_chars-append, read_quoted, read_comma}
use trunk_scope.Imports.Talkgroups.{
  TalkgroupColumns, detect_talkgroup_columns, entry, read_row, row_of,
}
use trunk_scope.Api.Talkgroups.{csv_header, doubled, escaped, hex_3, csv_line, talkgroup_csv}
use trunk_scope.Api.Talkgroups.Lines.{IsUnbroken, any-hex_3, filled_lines-talkgroup_csv}

-- A quotation mark or a comma.
abbrev is_mark : ℕ → Bool
is_mark c = c == b'"' || c == b','

abbrev reading : List Text → Text → Reading
reading fields current = record { fields = fields; current = current; in_quotes = false }

read_unquoted :
    (fields : List Text) (current s : Text)
    → any is_mark s ≡ false
    → read_chars (reading fields current) s ≡ reading fields (reverse_aux s current)
unfolding read_chars read_char
read_unquoted fields current [] h = refl
read_unquoted fields current (c ∷ s) h =
    let quote : (c == b'"') ≡ false = ground (arith, h) in
    let comma : (c == b',') ≡ false = ground (arith, h) in
    rw (quote, comma) (read_unquoted fields (c ∷ current) s (ground (arith, h)))

doubled_plain : (s : Text) → any (λ c. c == b'"') s ≡ false → doubled s ≡ s
unfolding doubled
doubled_plain [] h = refl
doubled_plain (c ∷ s) h =
    let quote : (c == b'"') ≡ false = ground (arith, h) in
    rw quote (ap (λ r. c ∷ r) (doubled_plain s (ground (arith, h))))

-- A field and the comma behind it.
read_raw_field :
    (fields : List Text) (s rest : Text)
    → any is_mark s ≡ false
    → (read_chars (reading fields []) (s ++ b',' ∷ rest)
        ≡ read_chars (reading (trim s ∷ fields) []) rest)
read_raw_field fields s rest h =
    read_chars-append (reading fields []) s (b',' ∷ rest)
    ∙ ap (λ r. read_chars r (b',' ∷ rest)) (read_unquoted fields [] s h)
    ∙ read_comma fields (reverse s) rest
    ∙ ap (λ t. read_chars (reading (trim t ∷ fields) []) rest) (reverse-reverse s)

read_escaped :
    (fields : List Text) (s : Text)
    → IsPlain s
    → read_chars (reading fields []) (escaped s) ≡ reading fields (reverse s)
read_escaped fields s (plain, trimmed) =
    ap (λ t. read_chars (reading fields []) (quoted_field t)) (doubled_plain s plain)
    ∙ read_quoted fields s plain

read_escaped_field :
    (fields : List Text) (s rest : Text)
    → IsPlain s
    → (read_chars (reading fields []) (escaped s ++ b',' ∷ rest)
        ≡ read_chars (reading (s ∷ fields) []) rest)
read_escaped_field fields s rest (plain, trimmed) =
    read_chars-append (reading fields []) (escaped s) (b',' ∷ rest)
    ∙ ap (λ r. read_chars r (b',' ∷ rest)) (read_escaped fields s (plain, trimmed))
    ∙ read_comma fields (reverse s) rest
    ∙ ap (λ t. read_chars (reading (trim t ∷ fields) []) rest) (reverse-reverse s)
    ∙ ap (λ t. read_chars (reading (t ∷ fields) []) rest) trimmed

-- Fields that a row can carry: no quotation mark inside, no blank at the ends, and a name.
abbrev IsQuotable : Talkgroup → Type 0
IsQuotable t =
    IsPlain t.alpha_tag
    × (is_empty t.alpha_tag ≡ false)
    × IsPlain t.description
    × IsPlain t.category
    × (t.decimal_id < 4294967296)

module _ (t : Talkgroup) where
  abbrev from_tag : Text
  from_tag = escaped t.category ++ b',' ∷ escaped t.category

  abbrev from_description : Text
  from_description = escaped t.description ++ b',' ∷ from_tag

  abbrev from_mode : Text
  from_mode = codes "D" ++ b',' ∷ from_description

  abbrev from_alpha : Text
  from_alpha = escaped t.alpha_tag ++ b',' ∷ from_mode

  read-csv_line :
      IsQuotable t
      → (read_chars start (csv_line t)
          ≡ reading
              (t.category
                ∷ t.description
                ∷ trim (codes "D")
                ∷ t.alpha_tag
                ∷ trim (hex_3 t.decimal_id)
                ∷ trim (decimal t.decimal_id)
                ∷ [])
              (reverse t.category))
  unfolding csv_line
  read-csv_line (alpha, named, description, category, bound) =
      read_raw_field [] (decimal t.decimal_id) (hex_3 t.decimal_id ++ b',' ∷ from_alpha)
        (any-decimal is_mark t.decimal_id (λ d k. ground (arith, k)))
      ∙ read_raw_field _ (hex_3 t.decimal_id) from_alpha
          (any-hex_3 is_mark (λ n. ground arith) refl t.decimal_id)
      ∙ read_escaped_field _ t.alpha_tag from_mode alpha
      ∙ read_raw_field _ (codes "D") from_description refl
      ∙ read_escaped_field _ t.description from_tag description
      ∙ read_escaped_field _ t.category (escaped t.category) category
      ∙ read_escaped _ t.category category

  split-csv_line :
      IsQuotable t
      → (split_csv_line (csv_line t)
          ≡ trim (decimal t.decimal_id)
            ∷ trim (hex_3 t.decimal_id)
            ∷ t.alpha_tag
            ∷ trim (codes "D")
            ∷ t.description
            ∷ t.category
            ∷ t.category
            ∷ [])
  unfolding split_csv_line
  split-csv_line (alpha, named, description, category, bound) =
      rw (read-csv_line (alpha, named, description, category, bound))
        (rw (reverse-reverse t.category) (rw category.1 refl))

-- The columns that the exported header names.
abbrev pub exported_columns : TalkgroupColumns
exported_columns = record { decimal = 0; alpha_tag = 2; description = 4; category = 6 }

-- Talkgroups that the file can carry: no text has a line break either.
abbrev pub IsExportable : Talkgroup → Type 0
IsExportable t = IsQuotable t × IsUnbroken t

-- The row of a talkgroup is read as its number, name, description and category.
abbrev pub IsReadBack : Talkgroup → Type 0
IsReadBack t =
    read_row exported_columns (csv_line t) ≡ entry t.decimal_id t.alpha_tag t.description t.category

read_row-csv_line : (t : Talkgroup) → IsQuotable t → IsReadBack t
unfolding read_row row_of
read_row-csv_line t (alpha, named, description, category, bound) =
    let digits : trim (decimal t.decimal_id) ≡ decimal t.decimal_id =
      trim_plain (decimal t.decimal_id)
        (any-decimal is_whitespace t.decimal_id (λ d k. ground (arith, k))) in
    let number : parse_uint 4294967296 (decimal t.decimal_id) ≡ some t.decimal_id =
      parse_uint-decimal 4294967296 t.decimal_id bound (omega arith) in
    ap (row_of exported_columns) (split-csv_line t (alpha, named, description, category, bound))
    ∙ rw (row_of, digits, number, named) refl

All-IsUnbroken : (items : List Talkgroup) → All IsExportable items → All IsUnbroken items
All-IsUnbroken [] h = tt
All-IsUnbroken (t ∷ items) ((_, h), hs) = (h, All-IsUnbroken items hs)

All-IsReadBack : (items : List Talkgroup) → All IsExportable items → All IsReadBack items
All-IsReadBack [] h = tt
All-IsReadBack (t ∷ items) ((h, _), hs) = (read_row-csv_line t h, All-IsReadBack items hs)

-- The exported file, read line by line, is its header and one row for each talkgroup in order; the
-- header's columns are found; and in them every row is read as the number, name, description and
-- category of its talkgroup. This holds if in each talkgroup the three texts have no quotation mark
-- and no line break inside and no blank at the ends, the name is not empty and the number is a u32.
pub read_row-talkgroup_csv :
    (items : List Talkgroup)
    → All IsExportable items
    → (filled_lines (talkgroup_csv items) ≡ csv_header ∷ map csv_line items)
      × (detect_talkgroup_columns csv_header ≡ some exported_columns)
      × All IsReadBack items
unfolding detect_talkgroup_columns
read_row-talkgroup_csv items h =
    (filled_lines-talkgroup_csv items (All-IsUnbroken items h), refl, All-IsReadBack items h)
