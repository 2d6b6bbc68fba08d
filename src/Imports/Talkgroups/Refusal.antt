-- ===== src/Imports/Talkgroups/Refusal.antt =====
-- When apps/control-plane/src/imports.rs refuses a talkgroup file.
use trunk_scope.Common.{
  ℕ, ◌+◌, ◌≡◌, refl, inl, inr, Bool, true, false, not, ◌&&◌, List, [], ◌∷◌, arith, Option-cases,
  is_some_and, is_some, and_then, get_elem?, any, Text, is_empty, parse_uint, id_eq, text_key,
}
use trunk_scope.Domain.{Uuid, Talkgroup}
use trunk_scope.Imports.{split_csv_line, filled_lines}
use trunk_scope.Imports.Talkgroups.{
  TalkgroupImportOptions, TalkgroupImportResult, TalkgroupColumns, detect_talkgroup_columns, Row,
  skipped, nameless, entry, read_row, put_row, read_rows, parse_talkgroup_csv, from_lines,
}

-- A row with a number, and with an alpha tag that is empty.
unfoldable pub lacks_name : TalkgroupColumns → Text → Bool
lacks_name columns line =
    is_some_and (get_elem? (split_csv_line line) columns.alpha_tag) is_empty
    && is_some (and_then (get_elem? (split_csv_line line) columns.decimal) (parse_uint 4294967296))

abbrev accepts : List Text → Bool
accepts [] = false
accepts (header ∷ lines) =
    is_some_and (detect_talkgroup_columns header) (λ columns. not (any (lacks_name columns) lines))

-- The file has a header with the columns, and no row lacks a name.
unfoldable pub is_acceptable : Text → Bool
is_acceptable csv = accepts (filled_lines csv)

module _ (fresh : ℕ → Uuid) (system_id : Uuid) (columns : TalkgroupColumns) where
  abbrev nameless? : Row → Bool
  nameless? nameless = true
  nameless? _ = false

  nameless?-read_row : (line : Text) → nameless? (read_row columns line) ≡ lacks_name columns line
  unfolding read_row lacks_name
  nameless?-read_row line = ground arith

  is_some-read_rows :
      (done : TalkgroupImportResult) (lines : List Text)
      → (is_some (read_rows fresh system_id columns done lines)
          ≡ not (any (lacks_name columns) lines))
  unfolding read_rows
  is_some-read_rows done [] = refl
  is_some-read_rows done (line ∷ lines) =
      by_row (λ d. is_some-read_rows d lines) (read_row columns line) refl
    where
      by_row :
          ((d : TalkgroupImportResult)
            → (is_some (read_rows fresh system_id columns d lines)
                ≡ not (any (lacks_name columns) lines)))
          → (row : Row) → read_row columns line ≡ row
          → (is_some (read_rows fresh system_id columns done (line ∷ lines))
              ≡ not (any (lacks_name columns) (line ∷ lines)))
      by_row rest skipped k = ground (arith, k, nameless?-read_row line, rest done)
      by_row rest nameless k = ground (arith, k, nameless?-read_row line)
      by_row rest (entry decimal_id alpha_tag description category) k = ground (
        arith,
        k,
        nameless?-read_row line,
        rest (record {
          imported =
              put_row (fresh done.rows) system_id decimal_id alpha_tag description category
                done.imported;
          rows = done.rows + 1;
        }),
      )

-- A file is taken if and only if it has a header with the columns for numbers and alpha tags and
-- no row that has a number but an empty alpha tag, whatever the catalogue is: one such row refuses
-- the whole file.
pub parse_talkgroup_csv-is_acceptable :
    (fresh : ℕ → Uuid) (csv : Text) (options : TalkgroupImportOptions) (existing : List Talkgroup)
    → is_some (parse_talkgroup_csv fresh csv options existing) ≡ is_acceptable csv
unfolding parse_talkgroup_csv is_acceptable
parse_talkgroup_csv-is_acceptable fresh csv options existing = by_lines (filled_lines csv)
  where
    by_lines : (ls : List Text) → is_some (from_lines fresh options existing ls) ≡ accepts ls
    by_lines [] = refl
    by_lines (header ∷ lines) = elim (Option-cases (detect_talkgroup_columns header)) [
      | inl e ↦ rw e refl
      | inr (columns, e) ↦ rw e (is_some-read_rows fresh options.system_id columns _ lines)
    ]
