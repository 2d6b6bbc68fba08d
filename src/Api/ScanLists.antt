-- ===== src/Api/ScanLists.antt =====
-- save_scan_list, delete_scan_list, start_scan_list and stop_scan_list of
-- apps/control-plane/src/api.rs. `allowed` is the administrator's check, `fresh` a drawn identifier.
pub mod Usable
use trunk_scope.Common.{
  ◌+◌, ◌-◌, Bool, true, false, not, ◌&&◌, ◌||◌, none, some, List, [], ◌∷◌, ◌++◌, arith, ◌==◌,
  if◌then◌else◌, is_some_and, length, any, retain, update_first, Text, codes, is_empty, trim, id_eq,
  text_key, Eq,
}
use trunk_scope.Common.Clock.{Time}
use trunk_scope.Domain.{Uuid, nil_uuid}
use trunk_scope.State.Profiles.{ScanChannel, ScanList}
use trunk_scope.State.App.{
  AppState, persist, save_scan_list_row, delete_scan_list_row, write_document, scan_lists_document,
}
use trunk_scope.State.Calls.{audit}
use trunk_scope.Api.Policy.{Status, unauthorized, bad_request, not_found, created, no_content}

abbrev pub is_unusable : ScanChannel → Bool
is_unusable channel =
    channel.frequency_hz == 0
    || channel.dwell_ms == 0
    || not (
        channel.bandwidth_hz == 6250
        || channel.bandwidth_hz == 12500
        || channel.bandwidth_hz == 25000)

abbrev pub list_has_id : Uuid → ScanList → Bool
list_has_id id list = list.id == id

-- The write to `scan_lists`.
unfoldable pub put_scan_list : ScanList → List ScanList → List ScanList
put_scan_list list lists =
    if any (list_has_id list.id) lists
    then update_first (list_has_id list.id) (λ _. list) lists
    else lists ++ list ∷ []

abbrev with_id : Uuid → ScanList → ScanList
with_id fresh list = record list {
  id = if list.id == nil_uuid then fresh else list.id;
  name = trim list.name;
}

unfoldable pub save_scan_list : Bool → Uuid → ScanList → AppState → Status × AppState
unfolding put_scan_list persist write_document trim
save_scan_list false fresh list s = (unauthorized, s)
save_scan_list true fresh list s =
    if is_empty (trim list.name) || any is_unusable list.channels
    then (bad_request, s)
    else let lists = put_scan_list (with_id fresh list) s.scan_lists in
      (
        created,
        persist (save_scan_list_row (with_id fresh list))
            (write_document (scan_lists_document lists) (record s { scan_lists = lists })),
      )

unfoldable pub delete_scan_list : Bool → Time → Text → Uuid → AppState → Status × AppState
unfolding persist write_document audit
delete_scan_list false now shown id s = (unauthorized, s)
delete_scan_list true now shown id s =
    let lists = retain (λ (l : ScanList). not (l.id == id)) s.scan_lists in
    if length lists == length s.scan_lists then (not_found, s) else (
      no_content,
      persist (delete_scan_list_row id) (
          write_document (scan_lists_document lists) (
            audit now (codes "scan-list.delete") (codes "scan-list") shown
              (record s { scan_lists = lists }))),
    )

unfoldable pub start_scan_list : Bool → Time → Text → Uuid → AppState → Status × AppState
unfolding audit
start_scan_list false now shown id s = (unauthorized, s)
start_scan_list true now shown id s =
    if any (λ (l : ScanList). l.id == id && l.enabled) s.scan_lists
    then (
      no_content,
      audit now (codes "scan.start") (codes "scan-list") shown
          (record s { active_scan_list = some id }),
    )
    else (not_found, s)

unfoldable pub stop_scan_list : Bool → Time → Text → Uuid → AppState → Status × AppState
unfolding audit
stop_scan_list false now shown id s = (unauthorized, s)
stop_scan_list true now shown id s =
    if is_some_and s.active_scan_list (λ active. active == id)
    then (
      no_content,
      audit now (codes "scan.stop") (codes "scan-list") shown
          (record s { active_scan_list = none }),
    )
    else (not_found, s)
