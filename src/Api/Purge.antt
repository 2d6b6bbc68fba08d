-- ===== src/Api/Purge.antt =====
-- purge_calls and undo_purge_calls of apps/control-plane/src/api.rs, for a request that the
-- administrator's check lets pass or not.
pub mod Undo
use trunk_scope.Common.{
  ℕ, ◌+◌, ◌-◌, ◌*◌, min, max, Bool, true, false, not, ◌&&◌, Option, none, some, List, [], ◌∷◌, ◌++◌,
  map, arith, leb, ◌==◌, if◌then◌else◌, is_none_or, filter_some, map_some, and_then, length, take,
  any, retain, Text, is_empty, trim, to_ascii_lowercase, contains, id_eq, text_key, Eq,
}
use trunk_scope.Common.Clock.{Time, seconds}
use trunk_scope.Common.Sort.{sort_desc}
use trunk_scope.Common.Paths.{Component}
use trunk_scope.Domain.{Uuid, Call, is_active}
use trunk_scope.State.App.{AppState, delete_calls, execute, upsert_row}
use trunk_scope.Api.Audio.{resolve_audio_object_key}

pub record PurgeCallsRequest : Type 0 where
  pub call_ids : Option (List Uuid)
  pub hours : Option ℕ
  pub category : Option Text
  pub talkgroup_id : Option Uuid
  pub system_id : Option Uuid
  pub delete_audio : Bool

pub data Reply : Type 0 where
  unauthorized not_found : Reply
  purged : ℕ → Reply

abbrev cutoff : Time → PurgeCallsRequest → Option Time
cutoff now request = map_some (λ h. now - seconds (min (max 1 h) (24 * 365) * 3600)) request.hours

abbrev wanted_category : PurgeCallsRequest → Option Text
wanted_category request =
    filter_some (λ v. not (is_empty v))
      (map_some (λ v. to_ascii_lowercase (trim v)) request.category)

unfoldable pub is_purged : Time → PurgeCallsRequest → Call → Bool
unfolding to_ascii_lowercase trim contains
is_purged now request call =
    not (is_active call.state)
    && (is_none_or request.call_ids (any (λ id. id == call.id))
        && (is_none_or (cutoff now request) (λ c. leb c call.started_at)
            && (is_none_or (wanted_category request)
                  (λ v. contains v (to_ascii_lowercase call.category))
                && (is_none_or request.talkgroup_id (λ t. call.talkgroup_id == t)
                    && is_none_or request.system_id (λ s. call.system_id == s)))))

abbrev remove_file : Option (List Component) → AppState → AppState
remove_file none s = s
remove_file (some path) s = record s { removed_files = path ∷ s.removed_files }

unfoldable pub remove_recordings : List Component → List Call → AppState → AppState
unfolding resolve_audio_object_key
remove_recordings root [] s = s
remove_recordings root (call ∷ calls) s =
    remove_recordings root calls
      (remove_file (and_then call.audio λ asset. resolve_audio_object_key root asset.object_key) s)

abbrev forget : List Component → PurgeCallsRequest → List Call → AppState → AppState
forget root request [] s = s
forget root request (call ∷ calls) s =
    let removed = call ∷ calls in
    let t = if request.delete_audio then remove_recordings root removed s else s in
    record (delete_calls (map (λ (c : Call). c.id) removed) t) { purge_undo = some removed }

unfoldable pub purge_calls :
    Bool → Time → List Component → PurgeCallsRequest → AppState → Reply × AppState
unfolding is_purged remove_recordings delete_calls
purge_calls false now root request s = (unauthorized, s)
purge_calls true now root request s =
    let removed = retain (is_purged now request) s.calls in
    let retained = retain (λ c. not (is_purged now request c)) s.calls in
    (purged (length removed), forget root request removed (record s { calls = retained }))

unfoldable pub upsert_rows : List Call → AppState → AppState
unfolding execute
upsert_rows [] s = s
upsert_rows (call ∷ calls) s = upsert_rows calls (execute (upsert_row call) s)

abbrev pub start_of : Call → ℕ
start_of call = call.started_at

unfoldable pub restore : List Call → List Call → List Call
unfolding sort_desc
restore restored calls = take 5000 (sort_desc start_of (calls ++ restored))

unfoldable pub undo_purge_calls : Bool → AppState → Reply × AppState
unfolding restore upsert_rows
undo_purge_calls false s = (unauthorized, s)
undo_purge_calls true s = elim s.purge_undo [
  | none ↦ (not_found, s)
  | some restored ↦ (
    purged (length restored),
    upsert_rows restored (record s { purge_undo = none; calls = restore restored s.calls }),
  )
]
