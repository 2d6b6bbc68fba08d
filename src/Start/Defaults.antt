-- ===== src/Start/Defaults.antt =====
-- The settings of a first start, `impl Default for AppSettings` of apps/control-plane/src/state.rs,
-- and the settings' fallbacks on the environment.
use trunk_scope.Common.{
  ℕ, Bool, true, false, not, Option, none, some, [], ◌∷◌, ltb, if◌then◌else◌, unwrap_or,
  filter_some, map_some, and_then, Text, codes, text_eq, is_empty, trim, to_ascii_lowercase,
  parse_uint, Map, id_eq, text_key,
}
use trunk_scope.Common.Float.{F32, f32_0}
use trunk_scope.State.Profiles.{AiTaskSettings}
use trunk_scope.State.Settings.{AppSettings}

-- `std::env::var` and `str::parse` to a float.
pub record Environment : Type 0 where
  pub var : Text → Option Text
  pub parse_f32 : Text → Option F32

abbrev parse_bool : Text → Option Bool
parse_bool text =
    if text_eq text (codes "true")
    then some true
    else if text_eq text (codes "false")
    then some false
    else none

abbrev pub var_or_empty : Environment → Text → Text
var_or_empty env name = unwrap_or (env.var name) []

-- A task that is enabled, asked every so many minutes.
abbrev task_every : ℕ → AiTaskSettings
task_every minutes = record {
  enabled = true;
  provider = [];
  model = [];
  system_prompt = [];
  interval_minutes = minutes;
  max_batch = 32;
  confidence_threshold = 0x3f40_0000;
  fallback_model = [];
  prompt_version = 1;
}

abbrev pub default_ai_task_settings : Map Text AiTaskSettings
default_ai_task_settings =
    (codes "transcription", task_every 1)
    ∷ (codes "unit-extraction", task_every 10)
    ∷ (codes "tone-classification", task_every 10)
    ∷ (codes "event-tagging", task_every 10)
    ∷ (codes "address-normalization", task_every 10)
    ∷ (codes "correlation", task_every 30)
    ∷ (codes "map-placement", task_every 10)
    ∷ (codes "workload-metrics", task_every 60)
    ∷ []

abbrev pub default_geocoder_provider : Text
default_geocoder_provider = codes "nominatim"

abbrev pub default_transcribe_provider : Text
default_transcribe_provider = codes "openai-compatible"

abbrev pub default_summary_provider : Text
default_summary_provider = codes "ollama"

abbrev default_transcription_prompt : Text
default_transcription_prompt =
    codes
      "Transcribe this radio transmission accurately. Preserve call signs, unit numbers, street names, and radio codes. Use the configured radio vocabulary when it helps resolve recognition ambiguity."

abbrev default_summary_prompt : Text
default_summary_prompt =
    codes
      "Write a concise factual radio-operations brief. Group related activity, mention only details supported by the transcripts, and do not invent names, addresses, or outcomes."

abbrev default_location_prompt : Text
default_location_prompt =
    codes
      "Extract only a location explicitly stated in the transcript: street address, intersection, highway, landmark, or named place. Return JSON {\"location\": string|null, \"confidence\": number}. Never infer a location from a unit or agency name."

abbrev default_event_tagging_prompt : Text
default_event_tagging_prompt =
    codes
      "Classify the radio transmission using only evidence in the transcript. Return JSON with category (fire, ems, law, traffic, public-works, other), urgency (routine, elevated, urgent), and tags. Do not invent incident details."

abbrev default_grouping_prompt : Text
default_grouping_prompt =
    codes
      "Group transmissions only when they clearly refer to the same incident, channel, location, or dispatch exchange. Preserve uncertainty and never merge unrelated calls."

abbrev parsed {ℓ} : {A : Type ℓ} → Environment → Text → (Text → Option A) → Option A
parsed env name parse = and_then (env.var name) parse

abbrev positive : Option ℕ → Option ℕ
positive = filter_some (λ v. ltb 0 v)

unfoldable pub default_settings : Environment → AppSettings
unfolding parse_uint text_eq
default_settings env = record {
  schema_version = 5;
  home_label = codes "Home";
  home_latitude = 0x4046_32fe_c56d_5cfb;
  home_longitude = 0xc056_a506_24dd_2f1b;
  radio_mode = unwrap_or (env.var (codes "TRUNKSCOPE_RADIO_MODE")) (codes "simulator");
  radio_device = var_or_empty env (codes "TRUNKSCOPE_RADIO_DEVICE");
  radio_frequency_hz =
      unwrap_or
        (positive
          (parsed env (codes "TRUNKSCOPE_RADIO_FREQUENCY_HZ") (parse_uint 18446744073709551616)))
        851012500;
  radio_sample_rate_hz =
      unwrap_or
        (positive (parsed env (codes "TRUNKSCOPE_RADIO_SAMPLE_RATE_HZ") (parse_uint 4294967296)))
        2400000;
  radio_bandwidth_hz = parsed env (codes "TRUNKSCOPE_RADIO_BANDWIDTH_HZ") (parse_uint 4294967296);
  radio_gain_db = parsed env (codes "TRUNKSCOPE_RADIO_GAIN_DB") env.parse_f32;
  radio_agc = unwrap_or (parsed env (codes "TRUNKSCOPE_RADIO_AGC") parse_bool) false;
  radio_ppm = unwrap_or (parsed env (codes "TRUNKSCOPE_RADIO_PPM") env.parse_f32) f32_0;
  ai_enabled = unwrap_or (parsed env (codes "TRUNKSCOPE_AI_ENABLED") parse_bool) false;
  ai_profile =
      unwrap_or (env.var (codes "TRUNKSCOPE_AI_PROFILE")) (codes "cpu-faster-whisper-small");
  transcribe_url =
      unwrap_or (env.var (codes "TRUNKSCOPE_TRANSCRIBE_URL"))
        (codes "http://speaches:8000/v1/audio/transcriptions");
  transcribe_provider = default_transcribe_provider;
  transcribe_api_key = var_or_empty env (codes "TRUNKSCOPE_TRANSCRIBE_API_KEY");
  transcribe_model =
      unwrap_or (env.var (codes "TRUNKSCOPE_TRANSCRIBE_MODEL"))
        (codes "Systran/faster-distil-whisper-small.en");
  vad_enabled = unwrap_or (parsed env (codes "TRUNKSCOPE_VAD_ENABLED") parse_bool) true;
  summary_model = unwrap_or (env.var (codes "TRUNKSCOPE_SUMMARY_MODEL")) (codes "llama3.2:3b");
  summary_provider = default_summary_provider;
  summary_api_key = var_or_empty env (codes "TRUNKSCOPE_SUMMARY_API_KEY");
  summary_url = var_or_empty env (codes "TRUNKSCOPE_SUMMARY_URL");
  summary_lookback_hours = 4;
  summary_refresh_minutes = 15;
  transcription_system_prompt = default_transcription_prompt;
  summary_system_prompt = default_summary_prompt;
  location_extraction_prompt = default_location_prompt;
  event_tagging_prompt = default_event_tagging_prompt;
  conversation_grouping_prompt = default_grouping_prompt;
  ai_tasks = default_ai_task_settings;
  radio_vocabulary = [];
  geocoder_url = var_or_empty env (codes "TRUNKSCOPE_GEOCODER_URL");
  geocoder_provider = default_geocoder_provider;
  geocoder_api_key = var_or_empty env (codes "TRUNKSCOPE_GEOCODER_API_KEY");
  discord_webhook_url = var_or_empty env (codes "TRUNKSCOPE_DISCORD_WEBHOOK_URL");
  discord_keyword_rules = [];
  discord_talkgroup_rules = [];
  site_filter = var_or_empty env (codes "TRUNKSCOPE_SITE_FILTER");
  compat_ingest_enabled = false;
  wizard_completed = false;
  public_feed_enabled = false;
  public_allowed_talkgroups = [];
  public_feed_delay_seconds = 120;
  expose_transcripts = false;
  expose_radio_ids = false;
  expose_precise_locations = false;
  audio_retention_days = 30;
  transcript_retention_days = 365;
  metadata_retention_days = 365;
}

-- The setting, trimmed, and the variable, trimmed, where the setting is blank; none if both are.
unfoldable pub setting_or_var : Environment → Text → Text → Option Text
unfolding trim
setting_or_var env setting name =
    if not (is_empty (trim setting))
    then some (trim setting)
    else filter_some (λ v. not (is_empty v)) (map_some trim (env.var name))

unfoldable pub effective_summary_url : Environment → AppSettings → Option Text
unfolding setting_or_var
effective_summary_url env settings =
    setting_or_var env settings.summary_url (codes "TRUNKSCOPE_SUMMARY_URL")

unfoldable pub effective_geocoder_url : Environment → AppSettings → Option Text
unfolding setting_or_var
effective_geocoder_url env settings =
    setting_or_var env settings.geocoder_url (codes "TRUNKSCOPE_GEOCODER_URL")

unfoldable pub effective_discord_webhook_url : Environment → AppSettings → Option Text
unfolding setting_or_var
effective_discord_webhook_url env settings =
    setting_or_var env settings.discord_webhook_url (codes "TRUNKSCOPE_DISCORD_WEBHOOK_URL")

unfoldable pub effective_site_filter : Environment → AppSettings → Option Text
unfolding setting_or_var to_ascii_lowercase
effective_site_filter env settings =
    map_some to_ascii_lowercase
      (setting_or_var env settings.site_filter (codes "TRUNKSCOPE_SITE_FILTER"))
