-- ===== src/Tests/Radio.antt =====
-- The theorems on apps/control-plane/src/radiod.rs at concrete states.
use trunk_scope.Common.{
  ◌≤◌, ◌≡◌, refl, true, false, ◌||◌, none, some, [], ◌∷◌, ltb, unwrap_or, codes, text_eq,
  eq_ignore_ascii_case, starts_with, id_eq, text_key,
}
use trunk_scope.State.App.{AppState}
use trunk_scope.State.Pipeline.{bump_config_generation}
use trunk_scope.State.Profiles.{SystemProfile}
use trunk_scope.Radio.{Environment}
use trunk_scope.Radio.Events.{Arithmetic, apply_event, audio_segment, tone_matches}
use trunk_scope.Radio.Plan.{apply_event-off_plan}
use trunk_scope.Radio.Supervisor.{Supervisor, Turn, turn, failed, changed, elsewhere}
use trunk_scope.Radio.Supervisor.Attempts.{none_yet, failure, interruption, Tries-bounded}
use trunk_scope.Tests.Samples.{sample_state, sample_system, sample_receiver}

abbrev sample_arithmetic : Arithmetic
sample_arithmetic = record {
  round_to_u64 = λ x. x;
  round_to_u32 = λ x. x;
  less_20 = λ x. x;
  near_tone = λ x text. false;
}

abbrev sample_environment : Environment
sample_environment = record {
  radio_device = some (codes "driver=rtlsdr");
  radiod_path = none;
  calls_path = none;
}

abbrev analog_system : SystemProfile
analog_system = record sample_system {
  protocol = codes "analog-fm";
  frequency_hz = some 851012500;
  tone = some (codes "D023");
}

abbrev analog_state : AppState
analog_state = record sample_state {
  systems = analog_system ∷ [];
  receivers = sample_receiver ∷ [];
}

apply_event-off_plan_example :
    apply_event sample_arithmetic 9 20 21 3
      (audio_segment (codes "/calls/a.wav") 2000 none (some (codes "D025")))
      analog_state
    ≡ analog_state
unfolding tone_matches text_eq starts_with eq_ignore_ascii_case
apply_event-off_plan_example =
    apply_event-off_plan sample_arithmetic 9 20 21 3 (codes "/calls/a.wav") 2000 none
      (some (codes "D025")) analog_state sample_receiver refl refl

abbrev sample_supervisor : Supervisor
sample_supervisor = record { paused = false; failures = 0; restart_delay = 1; state = analog_state }

abbrev failed_turn : Turn
failed_turn = record { now = 5; meanwhile = λ s. s; happenings = []; ending = failed }

-- A save during the run.
abbrev changed_turn : Turn
changed_turn = record {
  now = 5;
  meanwhile = λ s. s;
  happenings = elsewhere bump_config_generation ∷ [];
  ending = changed;
}

abbrev after_turn : Turn → Supervisor → Supervisor
after_turn t v = unwrap_or (turn sample_arithmetic sample_environment 3 t v) v

abbrev after_change : Supervisor
after_change = after_turn changed_turn (after_turn failed_turn sample_supervisor)

-- The save restarts the daemon, and keeps the count of failures.
after_change_test : (after_change.failures ≡ 1) × (after_change.restart_delay ≡ 1)
unfolding turn bump_config_generation
after_change_test = (refl, refl)

Tries-bounded_example :
    (3 ≤ 3)
    × (((after_turn failed_turn (after_turn failed_turn after_change)).paused || ltb 3 3) ≡ true)
unfolding turn bump_config_generation
Tries-bounded_example =
    Tries-bounded sample_arithmetic sample_environment 3 sample_supervisor 3
      (after_turn failed_turn (after_turn failed_turn after_change)) refl
      (failure
        (failure
          (interruption (failure none_yet failed_turn refl refl refl refl) changed_turn refl refl
            refl refl)
          failed_turn refl refl refl refl)
        failed_turn refl refl refl refl)
