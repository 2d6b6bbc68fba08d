-- ===== src/State/Settings.antt =====
-- AppSettings of apps/control-plane/src/state.rs.
use trunk_scope.Common.{ℕ, Bool, Option, List, Text, Map}
use trunk_scope.Common.Float.{F32, F64}
use trunk_scope.Domain.{Uuid}
use trunk_scope.State.Profiles.{AiTaskSettings, DiscordKeywordRule, DiscordTalkgroupRule}

pub record AppSettings : Type 0 where
  pub schema_version : ℕ
  pub home_label : Text
  pub home_latitude : F64
  pub home_longitude : F64
  pub radio_mode : Text
  pub radio_device : Text
  pub radio_frequency_hz : ℕ
  pub radio_sample_rate_hz : ℕ
  pub radio_bandwidth_hz : Option ℕ
  pub radio_gain_db : Option F32
  pub radio_agc : Bool
  pub radio_ppm : F32
  pub ai_enabled : Bool
  pub ai_profile : Text
  pub transcribe_url : Text
  pub transcribe_provider : Text
  pub transcribe_api_key : Text
  pub transcribe_model : Text
  pub vad_enabled : Bool
  pub summary_model : Text
  pub summary_provider : Text
  pub summary_api_key : Text
  pub summary_url : Text
  pub summary_lookback_hours : ℕ
  pub summary_refresh_minutes : ℕ
  pub transcription_system_prompt : Text
  pub summary_system_prompt : Text
  pub location_extraction_prompt : Text
  pub event_tagging_prompt : Text
  pub conversation_grouping_prompt : Text
  pub ai_tasks : Map Text AiTaskSettings
  pub radio_vocabulary : List Text
  pub geocoder_url : Text
  pub geocoder_provider : Text
  pub geocoder_api_key : Text
  pub discord_webhook_url : Text
  pub discord_keyword_rules : List DiscordKeywordRule
  pub discord_talkgroup_rules : List DiscordTalkgroupRule
  pub site_filter : Text
  pub compat_ingest_enabled : Bool
  pub wizard_completed : Bool
  pub public_feed_enabled : Bool
  pub public_allowed_talkgroups : List Uuid
  pub public_feed_delay_seconds : ℕ
  pub expose_transcripts : Bool
  pub expose_radio_ids : Bool
  pub expose_precise_locations : Bool
  pub audio_retention_days : ℕ
  pub transcript_retention_days : ℕ
  pub metadata_retention_days : ℕ
