-- ===== src/Presets/Fit.antt =====
-- Each preset of apps/control-plane/src/receiver_presets.rs fits the capabilities of its driver.
use trunk_scope.Common.{
  ◌≤◌, ◌≡◌, refl, true, some, arith, ◌==◌, any, All-find, Text, text_eq, id_eq, text_key,
}
use trunk_scope.Domain.{
  ReceiverDriver, rtl_sdr, airspy, sdrplay, hack_rf, pluto_sdr, blade_rf, lime_sdr, generic_soapy,
  simulator, ReceiverCapabilities,
}
use trunk_scope.Presets.{default_capabilities}
use trunk_scope.Presets.Table.{
  ReceiverSubmodelPreset, rtl_submodels, sdrplay_submodels, airspy_submodels, submodel_preset,
}

-- The rate is one of the driver's, and the centre lies in its range.
abbrev pub Fits : ReceiverCapabilities → ReceiverSubmodelPreset → Type 0
Fits limits preset =
    (any (λ rate. rate == preset.sample_rate_hz) limits.sample_rates_hz ≡ true)
    × (limits.minimum_frequency_hz ≤ preset.center_frequency_hz)
    × (preset.center_frequency_hz ≤ limits.maximum_frequency_hz)

-- A preset that is found under a driver, whatever its id, has a sample rate and a centre frequency
-- that the driver's default capabilities allow.
submodel_preset-Fits :
    (driver : ReceiverDriver) (id : Text) (preset : ReceiverSubmodelPreset)
    → submodel_preset driver id ≡ some preset
    → Fits (default_capabilities driver) preset
unfolding submodel_preset default_capabilities
submodel_preset-Fits rtl_sdr id preset e =
    All-find (Fits (default_capabilities rtl_sdr)) (λ sub. text_eq sub.id id) rtl_submodels preset
      (
        (refl, omega arith, omega arith),
        ((refl, omega arith, omega arith), ((refl, omega arith, omega arith), tt)),
      )
      e
submodel_preset-Fits sdrplay id preset e =
    All-find (Fits (default_capabilities sdrplay)) (λ sub. text_eq sub.id id) sdrplay_submodels
      preset
      (
        (refl, omega arith, omega arith),
        (
          (refl, omega arith, omega arith),
          (
            (refl, omega arith, omega arith),
            ((refl, omega arith, omega arith), ((refl, omega arith, omega arith), tt)),
          ),
        ),
      )
      e
submodel_preset-Fits airspy id preset e =
    All-find (Fits (default_capabilities airspy)) (λ sub. text_eq sub.id id) airspy_submodels preset
      ((refl, omega arith, omega arith), ((refl, omega arith, omega arith), tt)) e
submodel_preset-Fits hack_rf id preset e = cc
submodel_preset-Fits pluto_sdr id preset e = cc
submodel_preset-Fits blade_rf id preset e = cc
submodel_preset-Fits lime_sdr id preset e = cc
submodel_preset-Fits generic_soapy id preset e = cc
submodel_preset-Fits simulator id preset e = cc
