-- ===== src/Start/Table.antt =====
-- The talkgroups that AppState::new of apps/control-plane/src/state.rs takes from
-- imported-talkgroups.csv when there is no talkgroup document. A fresh id is drawn for the n-th
-- line below the header.
use trunk_scope.Common.{
  ℕ, suc, true, false, Option, none, some, List, [], ◌∷◌, map, ◌==◌, if◌then◌else◌, unwrap_or,
  and_then, get_elem?, head?, Text, is_empty, trim, trim_by, split, parse_uint, id_eq, text_key,
}
use trunk_scope.Common.Int.{pos}
use trunk_scope.Domain.{Talkgroup, Uuid}
use trunk_scope.Imports.{lines}

-- `trim_matches('"')`.
abbrev plain_fields : Text → List Text
plain_fields line = map (λ field. trim_by (λ c. c == b'"') (trim field)) (split b',' line)

abbrev row_talkgroup : Uuid → Uuid → List Text → Text → ℕ → Talkgroup
row_talkgroup id system_id fields alpha_tag decimal_id = record {
  id = id;
  system_id = system_id;
  decimal_id = decimal_id;
  alpha_tag = alpha_tag;
  description = unwrap_or (get_elem? fields 4) [];
  category = unwrap_or (get_elem? fields 6) [];
  priority = pos 0;
  enabled = true;
  record_calls = true;
  public_allowed = false;
  mode = none;
}

unfoldable pub table_row : Uuid → Uuid → List Text → Option Talkgroup
unfolding parse_uint
table_row id system_id fields = and_then (head? fields) λ first.
    and_then (parse_uint 4294967296 first) λ decimal_id. and_then (get_elem? fields 2) λ alpha_tag.
      if is_empty alpha_tag
      then none
      else some (row_talkgroup id system_id fields alpha_tag decimal_id)

abbrev kept : Option Talkgroup → List Talkgroup → List Talkgroup
kept none rows = rows
kept (some row) rows = row ∷ rows

unfoldable pub table_rows : (ℕ → Uuid) → ℕ → Uuid → List Text → List Talkgroup
unfolding table_row split trim trim_by
table_rows fresh n system_id [] = []
table_rows fresh n system_id (line ∷ rest) =
    kept (table_row (fresh n) system_id (plain_fields line))
      (table_rows fresh (suc n) system_id rest)

unfoldable pub read_table : (ℕ → Uuid) → Uuid → Text → Option (List Talkgroup)
unfolding table_rows lines
read_table fresh system_id csv = elim (lines csv) [
  | [] ↦ none
  | header ∷ rest ↦
      let rows = table_rows fresh 0 system_id rest in if is_empty rows then none else some rows
]
