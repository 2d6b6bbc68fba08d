-- ===== src/Start/Migration.antt =====
-- The upgrade of stored settings in AppState::new of apps/control-plane/src/state.rs. The flag says
-- whether the settings are written back.
use trunk_scope.Common.{
  ℕ, Bool, true, false, not, ◌||◌, some, ltb, if◌then◌else◌, is_some, unwrap_or, Text, codes,
  is_empty, to_ascii_lowercase, contains, id_eq, text_key,
}
use trunk_scope.State.Settings.{AppSettings}
use trunk_scope.Start.Defaults.{
  Environment, var_or_empty, default_geocoder_provider, default_transcribe_provider,
  default_summary_provider,
}

abbrev pub or_filled : Text → Text → Text
or_filled value default = if is_empty value then default else value

-- A step makes its version of older settings, and leaves others as they are.
abbrev pub step : ℕ → (AppSettings → AppSettings) → AppSettings × Bool → AppSettings × Bool
step version change (settings, changed) =
    if ltb settings.schema_version version
    then (record (change settings) { schema_version = version }, true)
    else (settings, changed)

abbrev pub profile_step : AppSettings → AppSettings
profile_step settings = record settings {
  ai_profile = or_filled settings.ai_profile (codes "cpu-faster-whisper-small");
  transcribe_url =
      or_filled settings.transcribe_url (codes "http://speaches:8000/v1/audio/transcriptions");
}

abbrev pub address_step : Environment → AppSettings → AppSettings
address_step env settings = record settings {
  summary_url = or_filled settings.summary_url (var_or_empty env (codes "TRUNKSCOPE_SUMMARY_URL"));
  geocoder_url =
      or_filled settings.geocoder_url (var_or_empty env (codes "TRUNKSCOPE_GEOCODER_URL"));
  discord_webhook_url =
      or_filled settings.discord_webhook_url
        (var_or_empty env (codes "TRUNKSCOPE_DISCORD_WEBHOOK_URL"));
  site_filter = or_filled settings.site_filter (var_or_empty env (codes "TRUNKSCOPE_SITE_FILTER"));
  geocoder_provider = or_filled settings.geocoder_provider default_geocoder_provider;
}

abbrev pub provider_step : AppSettings → AppSettings
provider_step settings = record settings {
  transcribe_provider = or_filled settings.transcribe_provider default_transcribe_provider;
  summary_provider = or_filled settings.summary_provider default_summary_provider;
}

unfoldable pub upgrade : Environment → AppSettings × Bool → AppSettings × Bool
upgrade env start =
    step 5 provider_step (step 4 (address_step env) (step 3 profile_step (step 2 (λ s. s) start)))

unfoldable pub is_sdrplay_device : AppSettings → Bool
unfolding to_ascii_lowercase contains
is_sdrplay_device settings = contains (codes "sdrplay") (to_ascii_lowercase settings.radio_device)

-- The explicit first values of an SDRplay.
unfoldable pub sdrplay_defaults : AppSettings × Bool → AppSettings × Bool
unfolding is_sdrplay_device
sdrplay_defaults (settings, changed) =
    if is_sdrplay_device settings
    then (
      record settings {
        radio_bandwidth_hz = some (unwrap_or settings.radio_bandwidth_hz 1800000);
        radio_gain_db = some (unwrap_or settings.radio_gain_db 0x4220_0000);
        radio_agc = false;
      },
      changed
          || not (is_some settings.radio_bandwidth_hz)
          || not (is_some settings.radio_gain_db)
          || settings.radio_agc,
    )
    else (settings, changed)

unfoldable pub migrate : Environment → AppSettings → AppSettings × Bool
unfolding upgrade sdrplay_defaults
migrate env settings = sdrplay_defaults (upgrade env (settings, false))
