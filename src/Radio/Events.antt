-- ===== src/Radio/Events.antt =====
-- The events of the radio daemon, RadioEvent and apply_event of apps/control-plane/src/radiod.rs.
use trunk_scope.Common.{
  ℕ, ◌+◌, ◌-◌, Bool, true, ◌&&◌, ◌||◌, Option, none, some, List, [], ◌∷◌, ◌++◌, leb, ◌==◌,
  if◌then◌else◌, is_some_and, unwrap_or, filter_some, map_some, and_then, any, find, retain,
  update_first, Text, codes, text_eq, eq_ignore_ascii_case, starts_with, decimal, id_eq, text_key,
}
use trunk_scope.Common.Clock.{Time, milliseconds}
use trunk_scope.Common.Float.{F32, F64}
use trunk_scope.Common.Json.{object, done}
use trunk_scope.Domain.{Uuid, nil_uuid, Receiver, monitoring, faulted, Call, complete, clear, ended}
use trunk_scope.State.Profiles.{SystemProfile}
use trunk_scope.State.App.{AppState}
use trunk_scope.State.Calls.{upsert_call}
use trunk_scope.State.Pipeline.{enqueue_processing}
use trunk_scope.Radio.{is_analog_fm}

-- The fields that the code only logs are left out.
pub data RadioEvent : Type 0 where
  stream_started : Text → Text → F64 → F64 → RadioEvent  -- driver, hardware, frequency, rate
  receiver_metric : F32 → F64 → ℕ → RadioEvent  -- signal, rate, overflows
  retuned : F64 → RadioEvent
  self_test_result : RadioEvent
  audio_segment : Text → ℕ → Option F64 → Option Text → RadioEvent  -- path, length, tone, code
  fatal_error : RadioEvent

-- Arithmetic on floats. `near_tone actual expected` is
-- `(actual - expected.parse::<f64>().unwrap_or(-1.0)).abs() < 0.8`.
pub record Arithmetic : Type 0 where
  pub round_to_u64 : F64 → ℕ
  pub round_to_u32 : F64 → ℕ
  pub less_20 : F32 → F32
  pub near_tone : F64 → Text → Bool

abbrev pub abs_diff : ℕ → ℕ → ℕ
abs_diff a b = (a - b) + (b - a)

-- `min_by_key`: of equal ones the first.
unfoldable pub min_by {ℓ} : {A : Type ℓ} → (A → ℕ) → List A → Option A
min_by key [] = none
min_by key (x ∷ xs) = elim (min_by key xs) [
  | none ↦ some x
  | some least ↦ if leb (key x) (key least) then some x else some least
]

-- The key of the search for the nearest profile: `u64::MAX` without a frequency.
abbrev pub distance : ℕ → SystemProfile → ℕ
distance tuned profile =
    unwrap_or (map_some (λ hz. abs_diff hz tuned) profile.frequency_hz) 18446744073709551615

abbrev pub in_reach : ℕ → SystemProfile → Bool
in_reach tuned profile = is_some_and profile.frequency_hz (λ hz. leb (abs_diff hz tuned) 25000)

module _ (x : Arithmetic) where
  -- Whether a profile's tone is the one heard.
  unfoldable pub tone_matches : Option F64 → Option Text → Text → Bool
  unfolding text_eq starts_with eq_ignore_ascii_case
  tone_matches tone_hz tone_code expected =
      text_eq expected (codes "none")
      || (if starts_with (codes "D") expected
          then is_some_and tone_code (eq_ignore_ascii_case expected)
          else is_some_and tone_hz (λ actual. x.near_tone actual expected))

  unfoldable pub channel_tone_allowed : Option F64 → Option Text → ℕ → List SystemProfile → Bool
  unfolding min_by tone_matches text_eq
  channel_tone_allowed tone_hz tone_code tuned systems =
      unwrap_or
        (map_some (tone_matches tone_hz tone_code) (
          and_then
            (filter_some (in_reach tuned) (min_by (distance tuned) (retain is_analog_fm systems)))
            (λ (profile : SystemProfile). profile.tone)))
        true

  -- `duration_ms` is below 2 ^ 63, as its cast to `i64` takes for granted.
  abbrev segment_call : Time → Uuid → Text → ℕ → ℕ → Receiver → Call
  segment_call now id path duration_ms tuned receiver = record {
    id = id;
    system_id = nil_uuid;
    system_name = codes "Analog FM";
    site_id = nil_uuid;
    talkgroup_id = 0;
    talkgroup_label = codes "FM " ++ decimal tuned;
    category = codes "analog-fm";
    frequency_hz = tuned;
    tdma_slot = none;
    source_radio_id = none;
    started_at = now - milliseconds duration_ms;
    ended_at = some now;
    state = complete;
    encryption = clear;
    signal_dbfs = receiver.health.signal_dbfs;
    transcript = none;
    summary = none;
    location = none;
    audio =
        some (record {
          object_key = path;
          content_type = codes "audio/wav";
          duration_ms = duration_ms;
        });
    enrichment = object done;
  }

  -- The branch of an audio segment; `id` and `session` are fresh.
  unfoldable pub apply_segment :
      Time → Uuid → Uuid → Text → ℕ → Option F64 → Option Text → Receiver → AppState → AppState
  unfolding channel_tone_allowed text_eq upsert_call enqueue_processing decimal
  apply_segment now id session path duration_ms tone_hz tone_code receiver s =
      let tuned = unwrap_or receiver.center_frequency_hz s.settings.radio_frequency_hz in
      let call = segment_call now id path duration_ms tuned receiver in
      if any (in_reach tuned) (retain is_analog_fm s.systems)
        && channel_tone_allowed tone_hz tone_code tuned s.systems
      then enqueue_processing call (upsert_call session call (ended call) s)
      else s

  abbrev edit_receiver : Uuid → (Receiver → Receiver) → AppState → AppState
  edit_receiver id change s = record s {
    receivers = update_first (λ (r : Receiver). r.id == id) change s.receivers;
  }

  abbrev metric : Time → F32 → F64 → ℕ → Receiver → Receiver
  metric now signal_dbfs rate overflows receiver =
      let health = receiver.health in
      record receiver {
        state = monitoring;
        sample_rate_hz = some (x.round_to_u32 rate);
        health = record health {
          signal_dbfs = signal_dbfs;
          noise_dbfs = x.less_20 signal_dbfs;
          dropped_samples = overflows;
          updated_at = now;
        };
      }

  abbrev apply_to : Time → Uuid → Uuid → Uuid → RadioEvent → Receiver → AppState → AppState
  apply_to now id session receiver_id (stream_started driver hardware frequency rate) receiver s =
      edit_receiver receiver_id
        (λ (r : Receiver). record r {
          label = hardware ++ codes " via " ++ driver;
          center_frequency_hz = some (x.round_to_u64 frequency);
          sample_rate_hz = some (x.round_to_u32 rate);
          state = monitoring;
        })
        s
  apply_to now id session receiver_id (receiver_metric signal rate overflows) receiver s =
      edit_receiver receiver_id (metric now signal rate overflows) s
  apply_to now id session receiver_id (retuned frequency) receiver s =
      edit_receiver receiver_id
        (λ (r : Receiver). record r {
          center_frequency_hz = some (x.round_to_u64 frequency);
          state = monitoring;
        })
        s
  apply_to now id session receiver_id self_test_result receiver s = s
  apply_to now id session receiver_id (audio_segment path duration_ms tone_hz tone_code) receiver
        s =
      apply_segment now id session path duration_ms tone_hz tone_code receiver s
  apply_to now id session receiver_id fatal_error receiver s =
      edit_receiver receiver_id (λ (r : Receiver). record r { state = faulted }) s

  unfoldable pub apply_event : Time → Uuid → Uuid → Uuid → RadioEvent → AppState → AppState
  unfolding apply_segment
  apply_event now id session receiver_id event s =
      elim (find (λ (r : Receiver). r.id == receiver_id) s.receivers) [
        | none ↦ s
        | some receiver ↦ apply_to now id session receiver_id event receiver s
      ]
