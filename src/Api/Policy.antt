-- ===== src/Api/Policy.antt =====
-- save_public_policy and save_settings of apps/control-plane/src/api.rs. The settings' range checks
-- on 64-bit floats are a parameter, and so is the decoder's configuration file, of which only the
-- new generation is kept.
pub mod Sync
use trunk_scope.Common.{
  ◌-◌, ◌/◌, Bool, true, false, not, ◌&&◌, ◌||◌, [], arith, ltb, leb, ◌==◌, if◌then◌else◌, any, Text,
  codes, text_eq, is_empty, trim, starts_with, id_eq, text_key, Eq,
}
use trunk_scope.Common.Float.{F64}
use trunk_scope.Domain.{PublicationPolicy}
use trunk_scope.State.Profiles.{DiscordKeywordRule, DiscordTalkgroupRule}
use trunk_scope.State.Settings.{AppSettings}
use trunk_scope.State.App.{AppState, persist, save_settings_row, write_document, settings_document}
use trunk_scope.State.Calls.{audit}
use trunk_scope.State.Pipeline.{bump_config_generation}
use trunk_scope.Common.Clock.{Time}

pub data Status : Type 0 where
  unauthorized bad_request not_found conflict unprocessable ok created accepted no_content : Status

unfoldable pub optional_http_url : Text → Bool
unfolding trim starts_with
optional_http_url url =
    is_empty (trim url)
    || starts_with (codes "http://") (trim url)
    || starts_with (codes "https://") (trim url)

abbrev with_policy : PublicationPolicy → AppSettings → AppSettings
with_policy policy settings = record settings {
  public_feed_enabled = policy.enabled;
  public_allowed_talkgroups = policy.allowed_talkgroups;
  public_feed_delay_seconds = policy.delay_seconds;
  expose_transcripts = policy.expose_transcripts;
  expose_radio_ids = policy.expose_radio_ids;
  expose_precise_locations = policy.expose_precise_locations;
}

abbrev pub policy_of : AppSettings → PublicationPolicy
policy_of settings = record {
  enabled = settings.public_feed_enabled;
  delay_seconds = settings.public_feed_delay_seconds;
  allowed_talkgroups = settings.public_allowed_talkgroups;
  expose_transcripts = settings.expose_transcripts;
  expose_radio_ids = settings.expose_radio_ids;
  expose_precise_locations = settings.expose_precise_locations;
}

abbrev pub store_settings : AppSettings → AppState → AppState
store_settings settings s =
    persist (save_settings_row settings)
      (write_document (settings_document settings) (record s { settings = settings }))

unfoldable pub save_public_policy : Bool → Time → PublicationPolicy → AppState → Status × AppState
unfolding persist write_document audit
save_public_policy false now policy s = (unauthorized, s)
save_public_policy true now policy s =
    if policy.enabled && is_empty policy.allowed_talkgroups then (bad_request, s) else (
      ok,
      audit now (codes "policy.update") (codes "public-policy") (codes "default")
          (record (store_settings (with_policy policy s.settings) s) { public_policy = policy }),
    )

abbrev is_radio_mode : Text → Bool
is_radio_mode mode =
    text_eq mode (codes "simulator")
    || text_eq mode (codes "radiod")
    || text_eq mode (codes "decoder")

-- `in_range` says that the home's latitude and longitude are in range.
abbrev refused_station : (F64 → F64 → Bool) → AppSettings → Bool
refused_station in_range settings =
    not (in_range settings.home_latitude settings.home_longitude)
    || is_empty (trim settings.home_label)
    || not (is_radio_mode settings.radio_mode)
    || settings.radio_frequency_hz == 0
    || settings.radio_sample_rate_hz == 0

abbrev refused_models : AppSettings → Bool
refused_models settings =
    is_empty (trim settings.ai_profile)
    || is_empty (trim settings.transcribe_model)
    || is_empty (trim settings.summary_model)
    || not (
        is_empty settings.transcribe_url
        || starts_with (codes "http://") settings.transcribe_url
        || starts_with (codes "https://") settings.transcribe_url)

abbrev refused_delay : AppSettings → Bool
refused_delay settings = ltb 86400 settings.public_feed_delay_seconds

abbrev refused_refresh : AppSettings → Bool
refused_refresh settings =
    not (leb 1 settings.summary_refresh_minutes && leb settings.summary_refresh_minutes 60)

abbrev refused_feed : AppSettings → Bool
refused_feed settings = settings.public_feed_enabled && is_empty settings.public_allowed_talkgroups

abbrev refused_rest : AppSettings → Bool
refused_rest settings =
    settings.audio_retention_days == 0
    || settings.transcript_retention_days == 0
    || settings.metadata_retention_days == 0
    || not (optional_http_url settings.summary_url)
    || not (optional_http_url settings.geocoder_url)
    || not (optional_http_url settings.discord_webhook_url)
    || any (λ (r : DiscordKeywordRule). not (optional_http_url r.webhook_url))
        settings.discord_keyword_rules
    || any (λ (r : DiscordTalkgroupRule). not (optional_http_url r.webhook_url))
        settings.discord_talkgroup_rules

unfoldable pub is_refused : (F64 → F64 → Bool) → AppSettings → Bool
unfolding trim starts_with text_eq optional_http_url
is_refused in_range settings =
    refused_station in_range settings
    || refused_models settings
    || refused_delay settings
    || refused_refresh settings
    || refused_feed settings
    || refused_rest settings

unfoldable pub save_settings :
    (F64 → F64 → Bool) → Bool → AppSettings → AppState → Status × AppState
unfolding is_refused persist write_document bump_config_generation trim
save_settings in_range false settings s = (unauthorized, s)
save_settings in_range true settings s =
    if is_refused in_range settings
    then (bad_request, s)
    else let current = record settings { home_label = trim settings.home_label } in
      (
        ok,
        bump_config_generation
            (store_settings current (record s { public_policy = policy_of current })),
      )
