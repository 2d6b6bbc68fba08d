-- ===== src/Imports/Talkgroups.antt =====
-- The talkgroup file of apps/control-plane/src/imports.rs.
pub mod Keys
pub mod Refusal
use trunk_scope.Common.{
  ℕ, ◌+◌, Bool, true, false, ◌&&◌, Option, none, some, List, [], ◌∷◌, ◌++◌, arith, ◌==◌,
  if◌then◌else◌, unwrap_or, map_some, and_then, get_elem?, any, position, update_first, Text, codes,
  is_empty, to_ascii_lowercase, contains, parse_uint, decimal, id_eq, text_key, Eq,
}
use trunk_scope.Common.Int.{pos}
use trunk_scope.Domain.{Uuid, Talkgroup}
use trunk_scope.Imports.{split_csv_line, filled_lines}

pub record TalkgroupImportOptions : Type 0 where
  pub system_id : Uuid
  pub merge : Bool

pub record TalkgroupImportResult : Type 0 where
  pub imported : List Talkgroup
  pub rows : ℕ

pub record TalkgroupColumns : Type 0 where
  pub decimal : ℕ
  pub alpha_tag : ℕ
  pub description : ℕ
  pub category : ℕ

abbrev column : Text → List Text → Option ℕ
column name fields = position (λ field. contains name (to_ascii_lowercase field)) fields

abbrev pub columns_after : List Text → ℕ → ℕ → TalkgroupColumns
columns_after fields decimal alpha_tag =
    let description = unwrap_or (column (codes "description") fields) (alpha_tag + 2) in
    record {
      decimal = decimal;
      alpha_tag = alpha_tag;
      description = description;
      category = unwrap_or (column (codes "category") fields) (description + 1);
    }

unfoldable pub detect_talkgroup_columns : Text → Option TalkgroupColumns
unfolding contains to_ascii_lowercase split_csv_line
detect_talkgroup_columns header =
    let fields = split_csv_line header in
    and_then (column (codes "decimal") fields)
      (λ decimal. map_some (columns_after fields decimal) (column (codes "alpha") fields))

-- A row as it is read: one to pass over, one without a name, or an entry.
pub data Row : Type 0 where
  skipped : Row
  nameless : Row
  entry : ℕ → Text → Text → Text → Row

abbrev pub named_row : TalkgroupColumns → List Text → ℕ → Text → Row
named_row columns fields decimal_id alpha_tag =
    if is_empty alpha_tag
    then nameless
    else entry decimal_id alpha_tag (unwrap_or (get_elem? fields columns.description) [])
        (unwrap_or (get_elem? fields columns.category) [])

-- The guards at the head of the loop.
unfoldable pub row_of : TalkgroupColumns → List Text → Row
unfolding parse_uint
row_of columns fields = elim (get_elem? fields columns.alpha_tag) [
  | none ↦ skipped
  | some alpha_tag ↦ elim (and_then (get_elem? fields columns.decimal) (parse_uint 4294967296)) [
    | none ↦ skipped
    | some decimal_id ↦ named_row columns fields decimal_id alpha_tag
  ]
]

unfoldable pub read_row : TalkgroupColumns → Text → Row
unfolding split_csv_line row_of
read_row columns line = row_of columns (split_csv_line line)

abbrev pub same_key : Uuid → ℕ → Talkgroup → Bool
same_key system_id decimal_id row = (row.decimal_id == decimal_id) && (row.system_id == system_id)

abbrev rewritten : Text → Text → Text → Talkgroup → Talkgroup
rewritten alpha_tag description category row = record row {
  alpha_tag = alpha_tag;
  description = description;
  category = category;
}

abbrev pub new_talkgroup : Uuid → Uuid → ℕ → Text → Text → Text → Talkgroup
new_talkgroup id system_id decimal_id alpha_tag description category = record {
  id = id;
  system_id = system_id;
  decimal_id = decimal_id;
  alpha_tag = alpha_tag;
  description = description;
  category = category;
  priority = pos 0;
  enabled = true;
  record_calls = true;
  public_allowed = false;
  mode = none;
}

-- The end of the loop's body: the row is written over the talkgroup of its number, or added.
unfoldable pub put_row : Uuid → Uuid → ℕ → Text → Text → Text → List Talkgroup → List Talkgroup
put_row id system_id decimal_id alpha_tag description category imported =
    if any (same_key system_id decimal_id) imported
    then update_first (same_key system_id decimal_id) (rewritten alpha_tag description category)
        imported
    else imported ++ new_talkgroup id system_id decimal_id alpha_tag description category ∷ []

-- The loop; `fresh n` is the id drawn for the entry after `n` others.
unfoldable pub read_rows :
    (ℕ → Uuid)
    → Uuid
    → TalkgroupColumns
    → TalkgroupImportResult
    → List Text
    → Option TalkgroupImportResult
unfolding read_row put_row
read_rows fresh system_id columns done [] = some done
read_rows fresh system_id columns done (line ∷ lines) = elim (read_row columns line) [
  | skipped ↦ read_rows fresh system_id columns done lines
  | nameless ↦ none
  | entry decimal_id alpha_tag description category ↦
      read_rows fresh system_id columns
        (record {
          imported =
              put_row (fresh done.rows) system_id decimal_id alpha_tag description category
                done.imported;
          rows = done.rows + 1;
        })
        lines
]

abbrev from_lines :
    (ℕ → Uuid) → TalkgroupImportOptions → List Talkgroup → List Text → Option TalkgroupImportResult
from_lines fresh options existing [] = none
from_lines fresh options existing (header ∷ lines) =
    and_then (detect_talkgroup_columns header) (λ columns.
      read_rows fresh options.system_id columns
        (record { imported = if options.merge then existing else []; rows = 0 }) lines)

unfoldable pub parse_talkgroup_csv :
    (ℕ → Uuid) → Text → TalkgroupImportOptions → List Talkgroup → Option TalkgroupImportResult
unfolding detect_talkgroup_columns read_rows
parse_talkgroup_csv fresh csv options existing =
    from_lines fresh options existing (filled_lines csv)
