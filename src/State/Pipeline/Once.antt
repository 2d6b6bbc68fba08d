-- ===== src/State/Pipeline/Once.antt =====
-- One run of the AI pipeline for a call, and one call for a recording
-- (apps/control-plane/src/state.rs).
use trunk_scope.Common.{
  ◌+◌, ◌%◌, ◌≤◌, ◌<◌, ◌≡◌, refl, true, false, some, List, [], ◌∷◌, arith, ==_refl, length, Text,
  get-insert_self, length-insert-le, id_eq, text_key,
}
use trunk_scope.Domain.{Uuid}
use trunk_scope.State.App.{AppState}
use trunk_scope.State.Pipeline.{
  u64_mod, bump_config_generation, mark_config_applied, pending_apply, resolve_call_for_audio,
  bounded, remember_audio, has, mark_call_enqueued,
}

-- The marks of other calls, one after the other.
abbrev pub mark_all : List Uuid → AppState → AppState
mark_all [] s = s
mark_all (id ∷ ids) s = mark_all ids (mark_call_enqueued id s).0

-- Fewer than 10,000 calls are remembered before each of the marks and after the last one.
abbrev pub StayFew : List Uuid → AppState → Type 0
StayFew [] s = length s.enqueued_calls < 10000
StayFew (id ∷ ids) s = (length s.enqueued_calls < 10000) × StayFew ids (mark_call_enqueued id s).0

mark-has :
    (id other : Uuid) (s : AppState)
    → length s.enqueued_calls < 10000
    → has id s.enqueued_calls ≡ true
    → has id (mark_call_enqueued other s).0.enqueued_calls ≡ true
unfolding mark_call_enqueued
mark-has id other s h e = ground arith

mark_all-has :
    (id : Uuid) (ids : List Uuid) (s : AppState)
    → StayFew ids s
    → has id s.enqueued_calls ≡ true
    → (mark_call_enqueued id (mark_all ids s)).1 ≡ false
mark_all-has id [] s h e = unfold mark_call_enqueued in ground (arith, h, e)
mark_all-has id (other ∷ ids) s (few, h) e =
    mark_all-has id ids (mark_call_enqueued other s).0 h (mark-has id other s few e)

-- A call marked once is not marked again while fewer than 10,000 calls are remembered, whatever
-- calls are marked in between and however often.
pub mark_call_enqueued-once :
    (id : Uuid) (ids : List Uuid) (s : AppState)
    → StayFew ids (mark_call_enqueued id s).0
    → (mark_call_enqueued id (mark_all ids (mark_call_enqueued id s).0)).1 ≡ false
mark_call_enqueued-once id ids s h = mark_all-has id ids (mark_call_enqueued id s).0 h first
  where
    first : has id (mark_call_enqueued id s).0.enqueued_calls ≡ true
    first = unfold mark_call_enqueued in ground (arith, ==_refl id)

pub remember_audio-found :
    (path : Text) (id : Uuid) (s : AppState)
    → resolve_call_for_audio path (remember_audio path id s) ≡ some id
unfolding resolve_call_for_audio remember_audio
remember_audio-found path id s =
    rw (get-insert_self path id (bounded s.audio_alias), resolve_call_for_audio) refl

-- A remembered recording resolves to its call, and a table of at most 10,000 recordings has at
-- most 10,000 of them still.
pub remember_audio-resolve :
    (path : Text) (id : Uuid) (s : AppState)
    → length s.audio_alias ≤ 10000
    → (resolve_call_for_audio path (remember_audio path id s) ≡ some id)
      × (length (remember_audio path id s).audio_alias ≤ 10000)
unfolding resolve_call_for_audio remember_audio
remember_audio-resolve path id s h = (
  remember_audio-found path id s,
  ground (arith, length-insert-le path id (bounded s.audio_alias)),
)

-- While the counter does not wrap, a change is pending after a bump and none is after applying,
-- and applying and bumping keep the applied generation at or below the current one.
pub pending_apply-bump :
    (s : AppState)
    → s.applied_generation ≤ s.config_generation
    → s.config_generation + 1 < u64_mod
    → (pending_apply (bump_config_generation s) ≡ true)
      × (pending_apply (mark_config_applied s) ≡ false)
      × ((bump_config_generation s).applied_generation
          ≤ (bump_config_generation s).config_generation)
unfolding bump_config_generation mark_config_applied pending_apply
pending_apply-bump s h k =
    let e : (s.config_generation + 1) % u64_mod ≡ s.config_generation + 1 = omega arith in
    (rw e (ground arith), ground arith, rw e (omega arith))
