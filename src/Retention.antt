-- ===== src/Retention.antt =====
-- run_once of apps/control-plane/src/retention.rs. The export of the database is not modelled.
pub mod Limits
use trunk_scope.Common.{
  ◌+◌, ◌-◌, Bool, ◌||◌, Option, none, some, List, [], ◌∷◌, ◌++◌, map, arith, ltb, if◌then◌else◌,
  is_some, retain, id_eq, text_key, Eq,
}
use trunk_scope.Common.Clock.{Time, days}
use trunk_scope.Common.Paths.{Component, components, strip_components}
use trunk_scope.Domain.{Call}
use trunk_scope.State.Settings.{AppSettings}
use trunk_scope.State.App.{AppState, delete_calls}

pub record Cutoffs : Type 0 where
  pub audio : Time
  pub transcript : Time
  pub metadata : Time

abbrev pub cutoffs : Time → AppSettings → Cutoffs
cutoffs now settings = record {
  audio = now - days settings.audio_retention_days;
  transcript = now - days settings.transcript_retention_days;
  metadata = now - days settings.metadata_retention_days;
}

-- The files to remove for a call's recording: only one below the calls' root.
unfoldable pub expired_file : List Component → Call → List (List Component)
unfolding components strip_components
expired_file root call = elim call.audio [
  | none ↦ []
  | some asset ↦
      if is_some (strip_components root (components asset.object_key))
      then components asset.object_key ∷ []
      else []
]

abbrev drop_transcript : Cutoffs → Call → Call
drop_transcript limits call =
    if ltb call.started_at limits.transcript
    then record call { transcript = none; summary = none }
    else call

abbrev drop_audio : Cutoffs → Call → Call
drop_audio limits call =
    if ltb call.started_at limits.audio then record call { audio = none } else call

abbrev loses_audio : Cutoffs → Call → Bool
loses_audio limits call = ltb call.started_at limits.metadata || ltb call.started_at limits.audio

-- The body of the `filter_map`.
unfoldable pub retained_call : Cutoffs → Call → Option Call
retained_call limits call =
    if ltb call.started_at limits.metadata
    then none
    else some (drop_audio limits (drop_transcript limits call))

unfoldable pub retained_calls : Cutoffs → List Call → List Call
unfolding retained_call
retained_calls limits [] = []
retained_calls limits (call ∷ calls) =
    let rest = retained_calls limits calls in
    elim (retained_call limits call) [ none ↦ rest | some kept ↦ kept ∷ rest ]

abbrev is_expired : Cutoffs → Call → Bool
is_expired limits call = ltb call.started_at limits.metadata

unfoldable pub remove_expired :
    List Component → List Call → List (List Component) → List (List Component)
unfolding expired_file
remove_expired root [] removed = removed
remove_expired root (call ∷ calls) removed =
    remove_expired root calls (expired_file root call ++ removed)

unfoldable pub run_once : List Component → Time → AppState → AppState
unfolding retained_calls remove_expired delete_calls
run_once root now s =
    let limits = cutoffs now s.settings in
    delete_calls (map (λ (c : Call). c.id) (retain (is_expired limits) s.calls)) (record s {
      calls = retained_calls limits s.calls;
      removed_files = remove_expired root (retain (loses_audio limits) s.calls) s.removed_files;
    })
