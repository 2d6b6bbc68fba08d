-- ===== src/State/Pipeline.antt =====
-- The bookkeeping of AppState in apps/control-plane/src/state.rs: configuration generations,
-- recording aliases, and the calls already handed to the AI pipeline.
pub mod Once
use trunk_scope.Common.{
  ℕ, ◌+◌, ◌%◌, Bool, true, false, Option, none, some, List, [], ◌∷◌, ◌++◌, arith, ltb, leb, ◌==◌,
  if◌then◌else◌, unwrap_or, map_some, length, any, find, Text, text_eq, get, insert, id_eq,
  text_key, Eq,
}
use trunk_scope.Common.Paths.{file_stem}
use trunk_scope.Domain.{Uuid, Call}
use trunk_scope.State.App.{AppState}

abbrev pub u64_mod : ℕ
u64_mod = 18446744073709551616

-- `fetch_add` wraps.
unfoldable pub bump_config_generation : AppState → AppState
bump_config_generation s = record s { config_generation = (s.config_generation + 1) % u64_mod }

unfoldable pub mark_config_applied : AppState → AppState
mark_config_applied s = record s { applied_generation = s.config_generation }

unfoldable pub pending_apply : AppState → Bool
pending_apply s = ltb s.applied_generation s.config_generation

unfoldable pub stem_of : Text → Text
unfolding file_stem
stem_of path = unwrap_or (file_stem path) path

abbrev pub same_stem : Text → Text × Uuid → Bool
same_stem path entry = text_eq (stem_of entry.0) (stem_of path)

-- The search by stem follows the table's order, which the code leaves open.
unfoldable pub resolve_call_for_audio : Text → AppState → Option Uuid
resolve_call_for_audio path s = elim (get path s.audio_alias) [
  | some id ↦ some id
  | none ↦ map_some (λ (entry : Text × Uuid). entry.1) (find (same_stem path) s.audio_alias)
]

abbrev pub bounded {ℓ} : {A : Type ℓ} → List A → List A
bounded xs = if leb 10000 (length xs) then [] else xs

unfoldable pub remember_audio : Text → Uuid → AppState → AppState
remember_audio path id s = record s { audio_alias = insert path id (bounded s.audio_alias) }

abbrev pub has : Uuid → List Uuid → Bool
has id ids = any (λ i. i == id) ids

-- `HashSet::insert` and its answer.
unfoldable pub mark_call_enqueued : Uuid → AppState → AppState × Bool
mark_call_enqueued id s =
    let seen = bounded s.enqueued_calls in
    if has id seen
    then (record s { enqueued_calls = seen }, false)
    else (record s { enqueued_calls = id ∷ seen }, true)

-- `send` fails once the receiver is gone; the count is published first and then taken back.
unfoldable pub enqueue_processing : Call → AppState → AppState
enqueue_processing call s =
    if s.queue_open
    then record s {
      processing = call ∷ s.processing;
      processing_queue_depth = s.processing_queue_depth + 1;
      processing_queue = s.processing_queue ++ call ∷ [];
    }
    else record s { processing = call ∷ s.processing }
