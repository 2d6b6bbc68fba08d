-- ===== src/Tests/Decoder.antt =====
-- The theorems on apps/control-plane/src/decoder.rs and scanner.rs at concrete states.
use trunk_scope.Common.{
  ◌<◌, length, List, ℕ, ◌+◌, ◌^◌, ◌≡◌, refl, ◌⊎◌, Bool, true, false, not, ◌&&◌, ◌||◌, none, some,
  [], ◌∷◌, arith, is_some, unwrap_or, any, All, Text, codes, parse_uint, decimal, get, id_eq,
  text_key,
}
use trunk_scope.Common.Clock.{seconds}
use trunk_scope.Common.Json.{pos_int}
use trunk_scope.Common.Int.{pos, negsuc}
use trunk_scope.Common.Float.{le32, lt32, f32_neg_20}
use trunk_scope.Domain.{Uuid, Call, complete, is_clear}
use trunk_scope.State.App.{persist, execute, send_event, AppState}
use trunk_scope.Decoder.Event.{
  bool_value, call_end, DecoderCall, Conversions, text, numeral, missing, absent, text_value,
  parse_u32,
}
use trunk_scope.Decoder.Convert.{
  Draws, convert_call, build_call, identify, audio_path, tone_allowed,
}
use trunk_scope.Decoder.Convert.Identity.{convert_call-audio, convert_call-same_recording}
use trunk_scope.State.Pipeline.{
  enqueue_processing, mark_call_enqueued, has, remember_audio, resolve_call_for_audio,
}
use trunk_scope.Decoder.Apply.{
  update_receiver_health, is_stale, is_open, sweep_stale_calls, apply_status,
}
use trunk_scope.Decoder.Apply.Repeat.{apply_status-repeat}
use trunk_scope.Decoder.Apply.Sweep.{sweep_stale_calls-closes}
use trunk_scope.State.Profiles.{ScanChannel}
use trunk_scope.Scanner.{next_channel}
use trunk_scope.Scanner.Order.{Found, next_channel-first}
use trunk_scope.State.Calls.{upsert_call}
use trunk_scope.State.Sessions.{update_conversation_session}
use trunk_scope.Tests.Samples.{sample_call, sample_state, sample_scan_list}

-- Whole numbers only.
abbrev whole_numbers : Conversions
whole_numbers = record {
  parse_f32 = λ t. some f32_neg_20;
  parse_f64 = λ t. parse_uint (2 ^ 64) t;
  round_to_u64 = λ v. v;
  print_f64 = λ v. decimal v;
  print_mhz = λ hz. decimal hz;
  from_timestamp = λ n. elim n [ pos k ↦ some (seconds k) | negsuc k ↦ none ];
}

abbrev sample_event : Text → DecoderCall
sample_event id = record {
  id = text id;
  freq = text (codes "851000000");
  short_name = text (codes "county");
  talkgroup = numeral (pos_int 101);
  talkgrouptag = missing;
  phase2 = absent;
  is_encrypted = absent;
  analog = absent;
  tone = missing;
  signal = missing;
  noise = missing;
  start_time = text (codes "100");
  stop_time = text (codes "107");
  src_num = missing;
  filename = text (codes "a.wav");
}

abbrev draws : Uuid → Draws
draws n = record { for_system = n; for_call = n + 1; for_session = n + 2 }

abbrev converted : Uuid → Text → Bool → AppState → Call × AppState
unfolding convert_call
converted n id ended s =
    unwrap_or (convert_call whole_numbers (draws n) (seconds 200) (sample_event id) ended s)
      (sample_call 0 0, s)

first : Call × AppState
first = converted 20 (codes "1") false sample_state

-- The same recording under another identifier, later.
second : Call × AppState
second = converted 30 (codes "2") true first.1

first-converts :
    convert_call whole_numbers
      (draws 20)
      (seconds 200)
      (sample_event (codes "1"))
      false
      sample_state
    ≡ some first
unfolding convert_call parse_u32 text_value tone_allowed first build_call
first-converts = refl

second-converts :
    convert_call whole_numbers (draws 30) (seconds 200) (sample_event (codes "2")) true first.1
    ≡ some second
unfolding convert_call parse_u32 text_value tone_allowed first build_call remember_audio identify
    resolve_call_for_audio get second
second-converts = refl

convert_call-same_recording_example : second.0.id ≡ first.0.id
unfolding audio_path text_value
convert_call-same_recording_example =
    convert_call-same_recording whole_numbers (draws 20) (draws 30) (seconds 200) (seconds 200)
      (sample_event (codes "1")) (sample_event (codes "2")) false true sample_state first.1 first.1
      second.1 first.0 second.0 (codes "/var/lib/trunkscope/calls/a.wav") first-converts refl
      second-converts refl refl

convert_call-audio_example :
    ((not (is_some second.0.audio)
        || (true
            && is_clear second.0.encryption
            && is_some (audio_path (text_value whole_numbers (sample_event (codes "2")).filename))))
      ≡ true)
    × (second.0.state ≡ complete)
    × (is_some second.0.ended_at ≡ true)
convert_call-audio_example =
    convert_call-audio whole_numbers (draws 30) (seconds 200) (sample_event (codes "2")) true
      first.1 second.0 second.1 second-converts

sweep_stale_calls-closes_example :
    (any
        (is_stale (seconds 1000))
        (sweep_stale_calls (λ id. id + 50) (seconds 1000) sample_state).decoder_active_calls
      ≡ false)
    × All
        (λ j.
          any (is_open j) (sweep_stale_calls (λ id. id + 50) (seconds 1000) sample_state).calls
          ≡ false)
        (1 ∷ [])
sweep_stale_calls-closes_example =
    sweep_stale_calls-closes (λ id. id + 50) (seconds 1000) sample_state
      ((refl, (refl, tt)), omega arith)

next_channel-first_example :
    ((next_channel sample_scan_list (some 0) ≡ none)
      × All (λ (c : ScanChannel). c.locked_out ≡ true) sample_scan_list.channels)
    ⊎ ((found : ℕ × ScanChannel) × (next_channel sample_scan_list (some 0) ≡ some found)
        × Found sample_scan_list.channels 1 0 found)
next_channel-first_example = next_channel-first sample_scan_list (some 0)

first_end : Call × AppState
first_end = converted 20 (codes "1") true sample_state

first_end-converts :
    convert_call whole_numbers (draws 20) (seconds 200) (sample_event (codes "1")) true sample_state
    ≡ some first_end
unfolding convert_call parse_u32 text_value tone_allowed first_end build_call
first_end-converts = refl

abbrev ended_once : AppState
ended_once =
    apply_status whole_numbers (draws 20) (seconds 200) (call_end (sample_event (codes "1")))
      sample_state

-- After the first end another call is marked.
abbrev later_state : AppState
later_state = record ended_once { enqueued_calls = 99 ∷ ended_once.enqueued_calls }

has-cons : (id other : Uuid) (ids : List Uuid) → has id ids ≡ true → has id (other ∷ ids) ≡ true
has-cons id other ids h = ground (arith, h)

ended_once-one : length ended_once.enqueued_calls ≡ 1
unfolding apply_status convert_call parse_u32 text_value tone_allowed build_call mark_call_enqueued
    upsert_call send_event execute persist update_conversation_session bool_value
    update_receiver_health lt32 le32 remember_audio identify resolve_call_for_audio get
    enqueue_processing
ended_once-one = refl

later_few : length later_state.enqueued_calls < 10000
later_few = omega (arith, ended_once-one)

apply_status-repeat_example :
    (apply_status whole_numbers
      (draws 30)
      (seconds 200)
      (call_end (sample_event (codes "2")))
      later_state).processing_queue
    ≡ later_state.processing_queue
unfolding audio_path text_value
apply_status-repeat_example =
    apply_status-repeat whole_numbers (draws 20) (draws 30) (seconds 200) (seconds 200)
      (sample_event (codes "1")) (sample_event (codes "2")) sample_state first_end.1 first_end.0
      (codes "/var/lib/trunkscope/calls/a.wav") later_state refl refl first_end-converts
      (omega arith) (λ id h. has-cons id 99 ended_once.enqueued_calls h) later_few refl
