-- ===== src/Api/Config/Sources.antt =====
-- The sources of the decoder's configuration: build_decoder_source and the first part of
-- decoder_config_value of apps/control-plane/src/api.rs. An `f32` as a JSON number is a parameter,
-- with the arithmetic of the default gains.
use trunk_scope.Common.{
  ℕ, suc, ◌+◌, ◌*◌, ◌/◌, ◌%◌, max, Bool, true, false, not, ◌||◌, Option, some, List, [], ◌∷◌, ◌++◌,
  if◌then◌else◌, unwrap_or, or_else, any, retain, Text, codes, text_eq, is_empty, trim_start_by,
  starts_with, contains, is_whitespace, id_eq, text_key,
}
use trunk_scope.Common.Float.{F32}
use trunk_scope.Common.Json.{
  Json, Members, boolean, number, pos_int, string, array, object, Items, end, item, done, member,
}
use trunk_scope.Domain.{Receiver, Uuid, sdrplay}
use trunk_scope.State.Profiles.{SystemProfile}
use trunk_scope.State.Settings.{AppSettings}
use trunk_scope.Presets.{Rounding, device_string, default_gain_settings}
use trunk_scope.Api.Tuning.{
  build_decoder_source, systems_for_receiver, p25_control_channels, tuning_span, flat_map,
  is_conventional, option_list,
}

pub record Floats : Type 0 where
  pub rounding : Rounding
  pub json_f32 : F32 → Json

abbrev pub json_object : List (Text × Json) → Members
json_object [] = done
json_object ((key, value) ∷ rest) = member key value (json_object rest)

abbrev json_items {ℓ} : {A : Type ℓ} → (A → Json) → List A → Items
json_items f [] = end
json_items f (x ∷ xs) = item (f x) (json_items f xs)

abbrev pub json_array {ℓ} : {A : Type ℓ} → (A → Json) → List A → Json
json_array f xs = array (json_items f xs)

abbrev pub json_nat : ℕ → Json
json_nat n = number (pos_int n)

abbrev pub uses : Text → List SystemProfile → Bool
uses protocol = any λ (system : SystemProfile). text_eq system.protocol protocol

abbrev is_filled : Json → Bool
is_filled (object (member key value rest)) = true
is_filled _ = false

-- 40.0 as an `f32`.
abbrev f32_40 : F32
f32_40 = 0x4220_0000

module _ (floats : Floats) where
  unfoldable pub source_value :
      Receiver → AppSettings → List SystemProfile → Option Text → ℕ → Members
  unfolding text_eq
  source_value receiver settings assigned site_filter index =
      let tuning = build_decoder_source receiver settings assigned site_filter in
      let gain = unwrap_or (or_else receiver.gain_db settings.radio_gain_db) f32_40 in
      let has_dmr = uses (codes "dmr") assigned || uses (codes "conventional-dmr") assigned in
      let gain_settings =
        if is_filled receiver.gain_settings
        then receiver.gain_settings
        else default_gain_settings floats.rounding receiver.driver gain in
      let tuned =
        (codes "center", json_nat tuning.center)
        ∷ (codes "rate", json_nat tuning.rate)
        ∷ (codes "plannedFrequencies", json_array json_nat tuning.planned_frequencies)
        ∷ (codes "uncoveredFrequencies", json_array json_nat tuning.uncovered_frequencies)
        ∷ (codes "error", floats.json_f32 receiver.ppm)
        ∷ (codes "gain", floats.json_f32 gain)
        ∷ (codes "gainSettings", gain_settings)
        ∷ [] in
      let recorders =
        (
          codes "digitalRecorders",
          json_nat
              (if uses (codes "p25") assigned then unwrap_or receiver.digital_recorders 6 else 0),
        )
        ∷ (
          codes "analogRecorders",
          json_nat (
              if uses (codes "analog-fm") assigned
              then unwrap_or receiver.analog_recorders 4
              else 0),
        )
        ∷ (
          codes "dmrRecorders",
          json_nat (if has_dmr then unwrap_or receiver.dmr_recorders 4 else 0),
        )
        ∷ (codes "driver", string (codes "osmosdr"))
        ∷ (codes "device", string (device_string receiver settings.radio_device index))
        ∷ [] in
      let auto_tune =
        if unwrap_or receiver.auto_tune false then (codes "autoTune", boolean true) ∷ [] else [] in
      json_object (tuned ++ recorders ++ auto_tune)

  abbrev fallback_device : Text → Text
  fallback_device device =
      if contains (codes "remote=") device || contains (codes "soapy=") device
      then device
      else if starts_with (codes "soapy=") (trim_start_by is_whitespace device)
      then device
      else codes "soapy=0," ++ device

  -- The source without an enabled receiver.
  unfoldable pub fallback_source : AppSettings → List SystemProfile → Option Text → Members
  unfolding flat_map p25_control_channels tuning_span text_eq contains starts_with trim_start_by
      is_whitespace
  fallback_source settings systems site_filter =
      let all_p25 =
        flat_map (λ system. p25_control_channels system site_filter)
          (retain (λ (system : SystemProfile). text_eq system.protocol (codes "p25")) systems) in
      let all_analog =
        flat_map (λ (system : SystemProfile). option_list system.frequency_hz)
          (retain is_conventional systems) in
      let (center, span) = tuning_span (all_p25 ++ all_analog) in
      let gain = unwrap_or settings.radio_gain_db f32_40 in
      let requested = max (max (unwrap_or span 0) 6000000) settings.radio_sample_rate_hz in
      json_object (
        (codes "center", json_nat (unwrap_or center settings.radio_frequency_hz))
        ∷ (codes "rate", json_nat ((requested + 23999) / 24000 * 24000))
        ∷ (codes "error", floats.json_f32 settings.radio_ppm)
        ∷ (codes "gain", floats.json_f32 gain)
        ∷ (codes "gainSettings", default_gain_settings floats.rounding sdrplay gain)
        ∷ (codes "digitalRecorders", json_nat 6)
        ∷ (codes "analogRecorders", json_nat 4)
        ∷ (codes "dmrRecorders", json_nat 4)
        ∷ (codes "driver", string (codes "osmosdr"))
        ∷ (codes "device", string (fallback_device settings.radio_device))
        ∷ [])

  abbrev enabled_systems : List SystemProfile → List SystemProfile
  enabled_systems = retain λ (system : SystemProfile). system.enabled

  abbrev source_if : Bool → Members → List Members → List Members
  source_if true source rest = source ∷ rest
  source_if false source rest = rest

  -- The receivers that have systems, numbered from `index`.
  unfoldable pub assigned_sources :
      ℕ
      → Option Uuid
      → AppSettings
      → List SystemProfile
      → Option Text
      → List Receiver
      → List Members
  unfolding source_value systems_for_receiver
  assigned_sources index default settings systems site_filter [] = []
  assigned_sources index default settings systems site_filter (receiver ∷ rest) =
      let assigned = systems_for_receiver receiver.id default systems in
      source_if (not (is_empty assigned))
        (source_value receiver settings assigned site_filter
          (unwrap_or receiver.soapy_index (index % 4294967296)))
        (assigned_sources (suc index) default settings systems site_filter rest)

  -- All receivers, each with all enabled systems.
  unfoldable pub shared_sources :
      ℕ → AppSettings → List SystemProfile → Option Text → List Receiver → List Members
  unfolding source_value
  shared_sources index settings systems site_filter [] = []
  shared_sources index settings systems site_filter (receiver ∷ rest) =
      source_value receiver settings (enabled_systems systems) site_filter
        (unwrap_or receiver.soapy_index (index % 4294967296))
      ∷ shared_sources (suc index) settings systems site_filter rest

  abbrev unless_none : List Members → List Members → List Members
  unless_none [] other = other
  unless_none (source ∷ sources) other = source ∷ sources

  -- The sources for the enabled receivers.
  unfoldable pub sources_of :
      AppSettings → List SystemProfile → Option Text → List Receiver → List Members
  unfolding fallback_source source_value assigned_sources shared_sources
  sources_of settings systems site_filter [] = fallback_source settings systems site_filter ∷ []
  sources_of settings systems site_filter (receiver ∷ []) =
      source_value receiver settings (enabled_systems systems) site_filter
        (unwrap_or receiver.soapy_index 0)
      ∷ []
  sources_of settings systems site_filter (first ∷ second ∷ rest) =
      unless_none
        (assigned_sources 0 (some first.id) settings systems site_filter (first ∷ second ∷ rest))
        (shared_sources 0 settings systems site_filter (first ∷ second ∷ rest))
