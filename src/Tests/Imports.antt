-- ===== src/Tests/Imports.antt =====
-- The theorems on apps/control-plane/src/imports.rs at concrete files.
use trunk_scope.Common.{
  some, arith, ◌+◌, ◌≡◌, refl, true, false, List, [], ◌∷◌, ◌++◌, is_some, unwrap_or, map, All, Text,
  codes, trim, parse_uint, id_eq, text_key,
}
use trunk_scope.Domain.{Talkgroup}
use trunk_scope.Imports.{lines, filled_lines}
use trunk_scope.Api.Talkgroups.{csv_header, csv_line, talkgroup_csv}
use trunk_scope.Api.Talkgroups.Export.{exported_columns, IsReadBack, read_row-talkgroup_csv}
use trunk_scope.Imports.Talkgroups.{
  TalkgroupImportResult, detect_talkgroup_columns, parse_talkgroup_csv, new_talkgroup,
}
use trunk_scope.Imports.Talkgroups.Keys.{Merged, parse_talkgroup_csv-Merged}
use trunk_scope.Imports.Talkgroups.Refusal.{
  is_acceptable, lacks_name, parse_talkgroup_csv-is_acceptable,
}

abbrev exported : Talkgroup
exported = new_talkgroup 1 7 1234 (codes "Fire, main") [] (codes "Public Safety")

abbrev two_exported : List Talkgroup
two_exported = exported ∷ new_talkgroup 2 7 7 (codes "Law") (codes "Sheriff") [] ∷ []

read_row-talkgroup_csv_example :
    (filled_lines (talkgroup_csv two_exported) ≡ csv_header ∷ map csv_line two_exported)
    × (detect_talkgroup_columns csv_header ≡ some exported_columns)
    × All IsReadBack two_exported
unfolding trim
read_row-talkgroup_csv_example = read_row-talkgroup_csv two_exported (
  (((refl, refl), refl, (refl, refl), (refl, refl), omega arith), (refl, refl, refl)),
  ((((refl, refl), refl, (refl, refl), (refl, refl), omega arith), (refl, refl, refl)), tt),
)

abbrev header : Text
header = codes "Decimal,Alpha Tag,Description,Category"

abbrev two_rows : Text
two_rows = header ++ 10 ∷ codes "100,Dispatch,Main,Fire" ++ 10 ∷ codes "101,Tac,Two,Fire"

abbrev old_talkgroups : List Talkgroup
old_talkgroups =
    new_talkgroup 1 7 100 (codes "Old") [] [] ∷ new_talkgroup 2 8 100 (codes "Else") [] [] ∷ []

abbrev imported : TalkgroupImportResult
imported =
    unwrap_or
      (parse_talkgroup_csv (λ n. 50 + n) two_rows (record { system_id = 7; merge = true })
        old_talkgroups)
      (record { imported = []; rows = 0 })

parse_talkgroup_csv-Merged_example : Merged 7 old_talkgroups imported.imported
unfolding parse_talkgroup_csv lines
parse_talkgroup_csv-Merged_example =
    parse_talkgroup_csv-Merged (λ n. 50 + n) two_rows 7 old_talkgroups imported (refl, (refl, tt))
      refl

parse_talkgroup_csv-is_acceptable_example :
    is_some (
      parse_talkgroup_csv
        (λ n. n)
        (header ++ 10 ∷ codes "100,,Main,Fire")
        (record { system_id = 7; merge = true })
        old_talkgroups)
    ≡ false
unfolding is_acceptable lacks_name lines trim detect_talkgroup_columns parse_uint
parse_talkgroup_csv-is_acceptable_example =
    parse_talkgroup_csv-is_acceptable (λ n. n) (header ++ 10 ∷ codes "100,,Main,Fire")
      (record { system_id = 7; merge = true }) old_talkgroups
