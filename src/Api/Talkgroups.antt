-- ===== src/Api/Talkgroups.antt =====
-- The talkgroup handlers of apps/control-plane/src/api.rs. Of write_decoder_config only the bump of
-- the configuration generation is state; the decoder's files are left out.
pub mod Export
pub mod Lines
pub mod Table
use trunk_scope.Common.{
  ℕ, zero, suc, ◌+◌, ◌/◌, ◌%◌, Bool, true, false, not, ◌||◌, Option, none, some, List, [], ◌∷◌,
  ◌++◌, arith, ltb, ◌==◌, if◌then◌else◌, is_some_and, unwrap_or, or_else, map_some, length, head?,
  retain, Text, codes, text_eq, is_empty, trim, decimal, id_eq, text_key, Eq,
}
use trunk_scope.Common.Clock.{Time}
use trunk_scope.Domain.{Uuid, nil_uuid, Talkgroup}
use trunk_scope.State.Profiles.{SystemProfile}
use trunk_scope.State.App.{AppState, write_document, talkgroups_document, imported_talkgroups_csv}
use trunk_scope.State.Calls.{audit}
use trunk_scope.State.Pipeline.{bump_config_generation}
use trunk_scope.Imports.Talkgroups.{TalkgroupImportResult, parse_talkgroup_csv}
use trunk_scope.Api.Policy.{Status, unauthorized, bad_request, not_found, ok, no_content}

unfoldable pub persist_talkgroups : AppState → AppState
unfolding write_document
persist_talkgroups s = write_document (talkgroups_document s.talkgroups) s

-- `{:X}` of a `u32`, in front of a text.
unfoldable pub hex_from : ℕ → ℕ → Text → Text
hex_from zero n rest = rest
hex_from (suc fuel) n rest =
    let digit = if ltb (n % 16) 10 then 48 + n % 16 else 55 + n % 16 in
    let more = hex_from fuel (n / 16) (digit ∷ rest) in if ltb n 16 then digit ∷ rest else more

-- `{:03X}`: eight digits hold a `u32`.
unfoldable pub hex_3 : ℕ → Text
unfolding hex_from
hex_3 n =
    let digits = hex_from 8 n [] in
    if ltb n 16 then b'0' ∷ b'0' ∷ digits else if ltb n 256 then b'0' ∷ digits else digits

abbrev quote : ℕ
quote = b'"'

-- `value.replace('"', "\"\"")`
unfoldable pub doubled : Text → Text
doubled [] = []
doubled (c ∷ value) =
    let rest = doubled value in if c == quote then quote ∷ quote ∷ rest else c ∷ rest

abbrev pub escaped : Text → Text
escaped value = quote ∷ (doubled value ++ quote ∷ [])

-- The columns, each with a comma behind it, and the last one.
abbrev joined : List Text → Text → Text
joined [] last = last
joined (column ∷ columns) last = column ++ b',' ∷ joined columns last

-- A row without its end of line.
unfoldable pub csv_line : Talkgroup → Text
csv_line item =
    joined
      (decimal item.decimal_id
        ∷ hex_3 item.decimal_id
        ∷ escaped item.alpha_tag
        ∷ codes "D"
        ∷ escaped item.description
        ∷ escaped item.category
        ∷ [])
      (escaped item.category)

unfoldable pub csv_row : Talkgroup → Text
unfolding csv_line
csv_row item = csv_line item ++ 10 ∷ []

abbrev pub csv_rows : List Talkgroup → Text
csv_rows [] = []
csv_rows (item ∷ items) = csv_row item ++ csv_rows items

abbrev pub csv_header : Text
csv_header = codes "Decimal,Hex,Alpha Tag,Mode,Description,Tag,Category"

unfoldable pub talkgroup_csv : List Talkgroup → Text
unfolding csv_row
talkgroup_csv items = csv_header ++ 10 ∷ csv_rows items

unfoldable pub regenerate_talkgroup_csv : AppState → AppState
unfolding talkgroup_csv write_document
regenerate_talkgroup_csv s = write_document (imported_talkgroups_csv (talkgroup_csv s.talkgroups)) s

unfoldable pub write_decoder_config : AppState → AppState
unfolding bump_config_generation
write_decoder_config s = bump_config_generation s

-- What follows a change of the catalogue; `shown` is the id's text.
abbrev announced : Time → Text → Text → AppState → AppState
announced now action shown s =
    audit now action (codes "talkgroup") shown
      (write_decoder_config (regenerate_talkgroup_csv (persist_talkgroups s)))

abbrev pub with_id : Uuid → Talkgroup → Talkgroup
with_id fresh item = record item { id = if item.id == nil_uuid then fresh else item.id }

abbrev pub put_talkgroup : Talkgroup → List Talkgroup → List Talkgroup
put_talkgroup item items = retain (λ (t : Talkgroup). not (t.id == item.id)) items ++ item ∷ []

unfoldable pub save_talkgroup :
    (Uuid → Text) → Bool → Time → Uuid → Talkgroup → AppState → Status × AppState
unfolding persist_talkgroups regenerate_talkgroup_csv write_decoder_config audit trim
save_talkgroup show false now fresh item s = (unauthorized, s)
save_talkgroup show true now fresh item s =
    if item.decimal_id == 0 || is_empty (trim item.alpha_tag) then (bad_request, s) else (
      ok,
      announced now (codes "talkgroup.saved") (show (with_id fresh item).id)
          (record s { talkgroups = put_talkgroup (with_id fresh item) s.talkgroups }),
    )

unfoldable pub update_talkgroup :
    (Uuid → Text) → Bool → Time → Uuid → Uuid → Talkgroup → AppState → Status × AppState
unfolding save_talkgroup
update_talkgroup show false now fresh id item s = (unauthorized, s)
update_talkgroup show true now fresh id item s =
    save_talkgroup show true now fresh (record item { id = id }) s

unfoldable pub delete_talkgroup : (Uuid → Text) → Bool → Time → Uuid → AppState → Status × AppState
unfolding persist_talkgroups regenerate_talkgroup_csv write_decoder_config audit
delete_talkgroup show false now id s = (unauthorized, s)
delete_talkgroup show true now id s =
    let items = retain (λ (t : Talkgroup). not (t.id == id)) s.talkgroups in
    if length items == length s.talkgroups then (not_found, s) else (
      no_content,
      announced now (codes "talkgroup.deleted") (show id) (record s { talkgroups = items }),
    )

-- The query of an import: the parsed `systemId`, and `merge`.
pub record ImportQuery : Type 0 where
  pub system_id : Option Uuid
  pub merge : Option Text

abbrev pub import_merges : ImportQuery → Bool
import_merges query =
    is_some_and query.merge (λ value. text_eq value (codes "true") || text_eq value (codes "1"))

abbrev import_system : ImportQuery → List SystemProfile → Uuid
import_system query systems =
    unwrap_or
      (or_else query.system_id (map_some (λ (system : SystemProfile). system.id) (head? systems)))
      nil_uuid

-- What follows a successful parse and the write of the uploaded file.
abbrev imported_state : TalkgroupImportResult → AppState → AppState
imported_state result s = write_decoder_config (
    if is_empty result.imported
    then s
    else persist_talkgroups (record s { talkgroups = result.imported }))

-- `csv` is the body if it is UTF-8. The upload is written as it is; a failed write, which ends the
-- import, is left out.
unfoldable pub import_talkgroups :
    Bool → (ℕ → Uuid) → ImportQuery → Option Text → AppState → Status × AppState
unfolding text_eq parse_talkgroup_csv write_document persist_talkgroups write_decoder_config
import_talkgroups false fresh query csv s = (unauthorized, s)
import_talkgroups true fresh query none s = (bad_request, s)
import_talkgroups true fresh query (some csv) s =
    elim (parse_talkgroup_csv fresh csv
      (record { system_id = import_system query s.systems; merge = import_merges query })
      s.talkgroups) [
        | none ↦ (bad_request, s)
        | some result ↦ (ok, imported_state result (write_document (imported_talkgroups_csv csv) s))
      ]
