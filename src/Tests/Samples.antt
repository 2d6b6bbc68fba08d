-- ===== src/Tests/Samples.antt =====
-- A receiver, a system, a call, settings and a whole state to run the model on.
use trunk_scope.Common.{Bool, true, false, none, some, [], ◌∷◌, codes, id_eq, text_key}
use trunk_scope.Common.Float.{f32_0, f32_neg_20, f32_neg_70}
use trunk_scope.Common.Int.{pos}
use trunk_scope.Common.Json.{object, done}
use trunk_scope.Common.Clock.{Time, seconds}
use trunk_scope.Domain.{
  Uuid, Call, complete, clear, Receiver, rtl_sdr, idle, general, ConversationSession,
}
use trunk_scope.State.Profiles.{SystemProfile, ScanChannel, ScanList}
use trunk_scope.State.Settings.{AppSettings}
use trunk_scope.State.App.{AppState}

abbrev pub sample_call : Uuid → Time → Call
sample_call id started = record {
  id = id;
  system_id = 7;
  system_name = codes "County";
  site_id = 0;
  talkgroup_id = 101;
  talkgroup_label = codes "Dispatch";
  category = codes "Fire";
  frequency_hz = 851000000;
  tdma_slot = none;
  source_radio_id = none;
  started_at = started;
  ended_at = some started;
  state = complete;
  encryption = clear;
  signal_dbfs = f32_neg_20;
  transcript = none;
  summary = none;
  location = none;
  audio = some (record {
    object_key = codes "/var/lib/trunkscope/calls/a.wav";
    content_type = codes "audio/wav";
    duration_ms = 1000;
  });
  enrichment = object done;
}

abbrev pub sample_receiver : Receiver
sample_receiver = record {
  id = 3;
  label = codes "R";
  driver = rtl_sdr;
  serial = codes "1";
  state = idle;
  center_frequency_hz = none;
  sample_rate_hz = some 2400000;
  gain_db = none;
  gain_settings = object done;
  ppm = f32_0;
  enabled = true;
  role = general;
  soapy_index = none;
  auto_tune = none;
  digital_recorders = none;
  analog_recorders = none;
  dmr_recorders = none;
  capabilities = record {
    minimum_frequency_hz = 24000000;
    maximum_frequency_hz = 1766000000;
    sample_rates_hz = [];
    maximum_bandwidth_hz = 3200000;
    supports_agc = true;
    gain_elements = [];
  };
  health = record {
    signal_dbfs = f32_neg_20;
    noise_dbfs = f32_neg_70;
    frequency_error_hz = f32_0;
    dropped_samples = 0;
    updated_at = 0;
  };
}

abbrev pub sample_system : SystemProfile
sample_system = record {
  id = 7;
  name = codes "County";
  enabled = true;
  protocol = codes "p25";
  control_channel_hz = some 851000000;
  control_channels_hz = 851000000 ∷ 853500000 ∷ [];
  nac = none;
  frequency_hz = none;
  bandwidth_hz = none;
  modulation = none;
  squelch_db = none;
  tone = none;
  deviation_hz = none;
  step_hz = none;
  dwell_ms = none;
  sites = [];
  receiver_id = none;
  decode_mdc = none;
  monitor_encrypted = none;
  color_code = none;
  time_slot = none;
  contact_id = none;
  counties = [];
  townships = [];
  municipalities = [];
  local_context = none;
}

abbrev pub sample_channel : Uuid → Bool → ScanChannel
sample_channel id locked = record {
  id = id;
  name = codes "Ch";
  frequency_hz = 155550000;
  modulation = codes "NFM";
  bandwidth_hz = 12500;
  squelch_db = f32_neg_70;
  tone = none;
  tone_required = false;
  dwell_ms = 2500;
  priority = pos 0;
  locked_out = locked;
}

abbrev pub sample_scan_list : ScanList
sample_scan_list = record {
  id = 5;
  name = codes "List";
  enabled = true;
  pause_on_activity = true;
  resume_after_ms = 5000;
  channels = sample_channel 1 false ∷ sample_channel 2 true ∷ sample_channel 3 false ∷ [];
}

abbrev pub sample_settings : AppSettings
sample_settings = record {
  schema_version = 1;
  home_label = codes "Home";
  home_latitude = 0;
  home_longitude = 0;
  radio_mode = codes "decoder";
  radio_device = [];
  radio_frequency_hz = 851000000;
  radio_sample_rate_hz = 2400000;
  radio_bandwidth_hz = none;
  radio_gain_db = none;
  radio_agc = false;
  radio_ppm = f32_0;
  ai_enabled = false;
  ai_profile = codes "cpu";
  transcribe_url = [];
  transcribe_provider = [];
  transcribe_api_key = [];
  transcribe_model = codes "small";
  vad_enabled = true;
  summary_model = codes "llama";
  summary_provider = [];
  summary_api_key = [];
  summary_url = [];
  summary_lookback_hours = 4;
  summary_refresh_minutes = 5;
  transcription_system_prompt = [];
  summary_system_prompt = [];
  location_extraction_prompt = [];
  event_tagging_prompt = [];
  conversation_grouping_prompt = [];
  ai_tasks = [];
  radio_vocabulary = [];
  geocoder_url = [];
  geocoder_provider = [];
  geocoder_api_key = [];
  discord_webhook_url = [];
  discord_keyword_rules = [];
  discord_talkgroup_rules = [];
  site_filter = [];
  compat_ingest_enabled = false;
  wizard_completed = true;
  public_feed_enabled = false;
  public_allowed_talkgroups = [];
  public_feed_delay_seconds = 120;
  expose_transcripts = false;
  expose_radio_ids = false;
  expose_precise_locations = false;
  audio_retention_days = 1;
  transcript_retention_days = 2;
  metadata_retention_days = 3;
}

abbrev pub sample_session : ConversationSession
sample_session = record {
  id = 40;
  system_id = 7;
  site_id = 0;
  talkgroup_id = 101;
  started_at = seconds 100;
  last_activity_at = seconds 100;
  call_ids = 1 ∷ [];
  audio_keys = [];
  state = codes "active";
  transcript = none;
  summary = none;
  location = none;
  activity_score = 1;
}

abbrev pub sample_state : AppState
sample_state = record {
  receivers = sample_receiver ∷ [];
  calls = sample_call 1 (seconds 100) ∷ sample_call 2 (seconds 50) ∷ [];
  conversation_sessions = sample_session ∷ [];
  public_policy = record {
    enabled = false;
    delay_seconds = 120;
    allowed_talkgroups = [];
    expose_transcripts = false;
    expose_radio_ids = false;
    expose_precise_locations = false;
  };
  systems = sample_system ∷ [];
  talkgroups = [];
  scan_lists = sample_scan_list ∷ [];
  active_scan_list = some 5;
  audit_log = [];
  receiver_commands = [];
  settings = sample_settings;
  sessions = [];
  decoder_calls = [];
  decoder_systems = [];
  decoder_connected = true;
  decoder_last_event = none;
  decoder_control_lock = none;
  events = [];
  processing = [];
  processing_queue = [];
  processing_queue_depth = 0;
  queue_open = true;
  ai_worker_status = [];
  ai_last_error = none;
  persistence = some [];
  purge_undo = none;
  config_generation = 1;
  applied_generation = 1;
  force_apply = false;
  audio_alias = [];
  enqueued_calls = [];
  decoder_active_calls = (1, seconds 100) ∷ (9, seconds 900) ∷ [];
  database = [];
  documents = [];
  removed_files = [];
}
