-- ===== src/Tests/Api.antt =====
-- The theorems on apps/control-plane/src/api.rs and retention.rs at concrete requests.
use trunk_scope.Common.{
  ◌%◌, ◌≤◌, ◌<◌, ◌≡◌, refl, true, none, some, List, [], ◌∷◌, arith, ◌==◌, All, codes, trim,
  strip_prefix, split, split_once, parse_uint, id_eq, text_key,
}
use mathlib.Core.List.{Perm}
use trunk_scope.Common.Clock.{seconds}
use trunk_scope.Common.Sort.{IsSortedDesc}
use trunk_scope.Common.Paths.{Component, root_dir, normal}
use trunk_scope.Domain.Policy.{validate}
use trunk_scope.Api.Range.{parse_range, parse_range-within}
use trunk_scope.Api.Audio.{IsBelow, resolve_audio_object_key, resolve_audio_object_key-IsBelow}
use trunk_scope.Api.Purge.{PurgeCallsRequest, is_purged, purge_calls, undo_purge_calls, start_of}
use trunk_scope.Api.Purge.Undo.{undo_purge_calls-purge}
use trunk_scope.Api.Policy.{policy_of, save_settings}
use trunk_scope.Api.Policy.Sync.{save_settings-validate}
use trunk_scope.Api.Tuning.{all_tuning, build_decoder_source}
use trunk_scope.Api.Tuning.Coverage.{build_decoder_source-covers}
use trunk_scope.Retention.{cutoffs, run_once}
use trunk_scope.Retention.Limits.{Within, run_once-Within}
use trunk_scope.Tests.Samples.{sample_state, sample_receiver, sample_settings, sample_system}

abbrev calls_root : List Component
calls_root = root_dir ∷ normal (codes "calls") ∷ []

parse_range-within_example : (4 ≤ 9) × (9 < 10)
unfolding parse_range strip_prefix split split_once trim parse_uint
parse_range-within_example = parse_range-within (codes "bytes=4-99") 10 4 9 refl

resolve_audio_object_key-IsBelow_example :
    IsBelow calls_root (root_dir ∷ normal (codes "calls") ∷ normal (codes "a.wav") ∷ [])
unfolding resolve_audio_object_key trim
resolve_audio_object_key-IsBelow_example =
    resolve_audio_object_key-IsBelow calls_root (codes " ./a.wav")
      (root_dir ∷ normal (codes "calls") ∷ normal (codes "a.wav") ∷ []) refl

abbrev sample_request : PurgeCallsRequest
sample_request = record {
  call_ids = some (1 ∷ []);
  hours = none;
  category = none;
  talkgroup_id = none;
  system_id = none;
  delete_audio = true;
}

undo_purge_calls-purge_example :
    Perm
      (undo_purge_calls true
        (purge_calls true (seconds 200) calls_root sample_request sample_state).1).1.calls
      sample_state.calls
    × IsSortedDesc start_of
        (undo_purge_calls true
          (purge_calls true (seconds 200) calls_root sample_request sample_state).1).1.calls
unfolding is_purged
undo_purge_calls-purge_example =
    undo_purge_calls-purge (seconds 200) calls_root sample_request sample_state (omega arith)
      (omega arith)

save_settings-validate_example :
    ((save_settings (λ _ _. true) true sample_settings sample_state).1.public_policy
      ≡ policy_of (save_settings (λ _ _. true) true sample_settings sample_state).1.settings)
    × (validate (save_settings (λ _ _. true) true sample_settings sample_state).1.public_policy
        ≡ none)
unfolding validate
save_settings-validate_example =
    save_settings-validate (λ _ _. true) true sample_settings sample_state refl refl

build_decoder_source-covers_example :
    ((build_decoder_source sample_receiver sample_settings
        (sample_system ∷ [])
        none).uncovered_frequencies
      ≡ [])
    × (((build_decoder_source sample_receiver sample_settings (sample_system ∷ []) none).rate
            % 24000
          == 0)
        ≡ true)
unfolding all_tuning
build_decoder_source-covers_example =
    build_decoder_source-covers sample_receiver sample_settings (sample_system ∷ []) none
      (omega arith, (omega arith, tt))

run_once-Within_example :
    All
      (Within (cutoffs (seconds 259300) sample_settings))
      (run_once calls_root (seconds 259300) sample_state).calls
    × ((run_once calls_root
          (seconds 259300)
          (run_once calls_root (seconds 259300) sample_state)).calls
        ≡ (run_once calls_root (seconds 259300) sample_state).calls)
run_once-Within_example = run_once-Within calls_root (seconds 259300) sample_state
