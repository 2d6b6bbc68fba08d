-- ===== src/Api/Config.antt =====
-- The decoder's configuration, decoder_config_value of apps/control-plane/src/api.rs. A site as JSON
-- and the existence of the imported table are parameters.
pub mod Sources
pub mod Tables
pub mod Assigned
use trunk_scope.Common.{
  ℕ, ◌+◌, ◌-◌, ◌/◌, ◌%◌, max, Bool, true, false, not, ◌&&◌, ◌||◌, Option, none, some, List, [], ◌∷◌,
  ◌++◌, map, arith, ltb, leb, if◌then◌else◌, is_none_or, unwrap_or, or_else, filter_some, map_some,
  length, any, retain, Text, codes, text_eq, is_empty, trim, to_ascii_lowercase, contains, id_eq,
  text_key, Eq,
}
use trunk_scope.Common.Float.{F32}
use trunk_scope.Common.Json.{
  Json, Members, boolean, number, float, neg_int, string, object, put_member,
}
use trunk_scope.Domain.{Uuid, Receiver, Talkgroup}
use trunk_scope.State.Profiles.{SystemProfile, SystemSite}
use trunk_scope.State.App.{AppState}
use trunk_scope.Start.Defaults.{Environment, effective_site_filter}
use trunk_scope.Api.ShortName.{sanitize_short_name}
use trunk_scope.Api.Tuning.{p25_control_channels, is_trunked}
use Sources.{Floats, json_object, json_array, json_nat, sources_of}
use Tables.{talkgroups_file_for_system, is_analog_channel}

pub record Outside : Type 0 where
  pub env : Environment
  pub floats : Floats
  pub site_json : SystemSite → Json
  pub show : Uuid → Text
  pub written : Uuid → Bool
  pub has_imported : Bool

-- A variable, trimmed, if it is not blank.
abbrev filled_var : Environment → Text → Option Text
filled_var env name = filter_some (λ v. not (is_empty v)) (map_some trim (env.var name))

unfoldable pub attach_upload_script : Environment → Members → Members
unfolding trim
attach_upload_script env system = elim (filled_var env (codes "TRUNKSCOPE_UPLOAD_SCRIPT")) [
  | none ↦ system
  | some script ↦ put_member (codes "uploadScript") (string script) system
]

unfoldable pub decoder_status_server : Environment → Text
unfolding trim
decoder_status_server env =
    unwrap_or (filled_var env (codes "TRUNKSCOPE_STATUS_SERVER"))
      (codes "ws://127.0.0.1:8080/api/v1/decoder/status")

abbrev put_if : Option Json → Text → Members → Members
put_if none key m = m
put_if (some value) key m = put_member key value m

abbrev is_site_selected : Option Text → SystemSite → Bool
is_site_selected site_filter site =
    is_none_or site_filter (λ filter. contains filter (to_ascii_lowercase site.name))

-- The members that only P25 has.
abbrev with_p25 : SystemProfile → Members → Members
with_p25 system m =
    let nac = filter_some (λ value. ltb 0 value && leb value 0xfff) system.nac in
    put_if (if unwrap_or system.monitor_encrypted false then some (boolean true) else none)
      (codes "monitorEncrypted") (put_if (map_some json_nat nac) (codes "nac") m)

module _ (o : Outside) where
  unfoldable pub trunked_value : List Talkgroup → Option Text → Text → SystemProfile → Members
  unfolding text_eq attach_upload_script
  trunked_value talkgroups site_filter default_file system =
      let is_dmr = text_eq system.protocol (codes "dmr") in
      let file = talkgroups_file_for_system o.show o.written talkgroups system.id default_file in
      let configured = json_object (
        (codes "type", string (if is_dmr then codes "dmr" else codes "p25"))
        ∷ (codes "shortName", string (sanitize_short_name system.name))
        ∷ (codes "control_channels", json_array json_nat (p25_control_channels system site_filter))
        ∷ (
          codes "sites",
          json_array o.site_json (retain (is_site_selected site_filter) system.sites),
        )
        ∷ (codes "modulation", string (if is_dmr then codes "fsk4" else codes "qpsk"))
        ∷ (codes "squelch", number (neg_int 59))
        ∷ (codes "recordUnknown", boolean true)
        ∷ (codes "hideEncrypted", boolean false)
        ∷ (codes "talkgroupsFile", string file.0)
        ∷ []) in
      attach_upload_script o.env (if is_dmr then configured else with_p25 system configured)

  abbrev f32_neg_70 : F32
  f32_neg_70 = 0xc28c_0000

  -- The members that only conventional DMR has.
  abbrev with_dmr : SystemProfile → Members → Members
  with_dmr system m = put_if (map_some json_nat system.contact_id) (codes "talkgroup") (
      put_if (map_some json_nat system.time_slot) (codes "slot")
        (put_if (map_some json_nat system.color_code) (codes "colorCode") m))

  abbrev is_digital : SystemProfile → Bool
  is_digital system =
      system.enabled
      && (text_eq system.protocol (codes "conventional-p25")
          || text_eq system.protocol (codes "conventional-dmr"))

  unfoldable pub digital_value : SystemProfile → ℕ → Members
  unfolding text_eq attach_upload_script
  digital_value system frequency =
      let is_dmr = text_eq system.protocol (codes "conventional-dmr") in
      let configured = json_object (
        (codes "type", string (if is_dmr then codes "conventionalDMR" else codes "conventionalP25"))
        ∷ (codes "shortName", string (sanitize_short_name system.name))
        ∷ (codes "channels", json_array json_nat (frequency ∷ []))
        ∷ (codes "modulation", string (unwrap_or system.modulation (codes "fsk4")))
        ∷ (codes "squelch", o.floats.json_f32 (unwrap_or system.squelch_db f32_neg_70))
        ∷ (codes "recordUnknown", boolean true)
        ∷ (codes "hideEncrypted", boolean false)
        ∷ []) in
      attach_upload_script o.env (if is_dmr then with_dmr system configured else configured)

  abbrev value_if : Option Members → List Members → List Members
  value_if none values = values
  value_if (some value) values = value ∷ values

  unfoldable pub digital_values : List SystemProfile → List Members
  unfolding digital_value
  digital_values [] = []
  digital_values (system ∷ systems) =
      value_if (map_some (digital_value system) system.frequency_hz) (digital_values systems)

  abbrev first_squelch : List SystemProfile → Option F32
  first_squelch [] = none
  first_squelch (system ∷ systems) = or_else system.squelch_db (first_squelch systems)

  -- The one system of all analog channels.
  unfoldable pub analog_value : List SystemProfile → Members
  unfolding attach_upload_script
  analog_value analog = attach_upload_script o.env (
      json_object (
        (codes "type", string (codes "conventional"))
        ∷ (codes "shortName", string (codes "FM"))
        ∷ (
          codes "channelFile",
          string (codes "/var/lib/trunkscope/audio/decoder/analog-channels.csv"),
        )
        ∷ (codes "squelch", o.floats.json_f32 (unwrap_or (first_squelch analog) f32_neg_70))
        ∷ (codes "enabled", boolean true)
        ∷ (codes "deemphasisTau", number (float 0x3f48_9374_bc6a_7efa))
        ∷ (
          codes "decodeMDC",
          boolean (any (λ (system : SystemProfile). unwrap_or system.decode_mdc false) analog),
        )
        ∷ (codes "decodeFSync", boolean false)
        ∷ []))

  unfoldable pub configured_systems :
      List Talkgroup → Option Text → List SystemProfile → List Members
  unfolding trunked_value digital_values analog_value is_trunked text_eq
  configured_systems talkgroups site_filter systems =
      let default_file =
        if o.has_imported
        then codes "/var/lib/trunkscope/calls/imported-talkgroups.csv"
        else codes "/config/trs_tg_6364.csv" in
      let analog =
        retain (λ (system : SystemProfile). system.enabled && is_analog_channel system) systems in
      map (trunked_value talkgroups site_filter default_file) (retain is_trunked systems)
      ++ digital_values (retain is_digital systems)
      ++ (if any is_analog_channel systems then analog_value analog ∷ [] else [])

  abbrev greatest_of : List ℕ → ℕ
  greatest_of [] = 0
  greatest_of (n ∷ ns) = max n (greatest_of ns)

  unfoldable pub decoder_config_value : AppState → Members
  unfolding sources_of configured_systems effective_site_filter decoder_status_server is_trunked
  decoder_config_value s =
      let site_filter = effective_site_filter o.env s.settings in
      let enabled = retain (λ (receiver : Receiver). receiver.enabled) s.receivers in
      let limit = greatest_of (
        map (λ system. length (p25_control_channels system site_filter))
          (retain is_trunked s.systems)) in
      json_object (
        (codes "ver", json_nat 2)
        ∷ (codes "captureDir", string (codes "/var/lib/trunkscope/calls"))
        ∷ (codes "statusServer", string (decoder_status_server o.env))
        ∷ (codes "audioArchive", boolean true)
        ∷ (codes "callLog", boolean true)
        ∷ (codes "softVocoder", boolean true)
        ∷ (codes "minDuration", number (float 0x3ff0_0000_0000_0000))
        ∷ (codes "maxDuration", json_nat 3600)
        ∷ (codes "compressWav", boolean true)
        ∷ (codes "frequencyFormat", string (codes "mhz"))
        ∷ (
          codes "filenameFormat",
          string (
              codes "{short_name}/{ztime:%Y}-{ztime:%m}-{ztime:%d}/{talkgroup}-{epoch}_{freq_mhz}"),
        )
        ∷ (codes "controlRetuneLimit", json_nat limit)
        ∷ (
          codes "sources",
          json_array object (sources_of o.floats s.settings s.systems site_filter enabled),
        )
        ∷ (
          codes "systems",
          json_array object (configured_systems s.talkgroups site_filter s.systems),
        )
        ∷ [])
