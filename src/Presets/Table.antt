-- ===== src/Presets/Table.antt =====
-- The table of submodels, device_presets and submodel_preset of
-- apps/control-plane/src/receiver_presets.rs.
use trunk_scope.Common.{
  ℕ, Bool, true, false, Option, List, [], ◌∷◌, and_then, find, Text, codes, text_eq, id_eq,
  text_key,
}
use trunk_scope.Common.Float.{F32}
use trunk_scope.Domain.{
  ReceiverDriver, rtl_sdr, airspy, sdrplay, hack_rf, pluto_sdr, blade_rf, lime_sdr, generic_soapy,
  simulator,
}

pub record ReceiverSubmodelPreset : Type 0 where
  pub id : Text
  pub label : Text
  pub sample_rate_hz : ℕ
  pub gain_db : F32
  pub ppm : F32
  pub center_frequency_hz : ℕ
  pub notes : Text

pub record ReceiverDevicePreset : Type 0 where
  pub driver : ReceiverDriver
  pub label : Text
  pub submodels : List ReceiverSubmodelPreset

abbrev public_safety_vhf_center_hz : ℕ
public_safety_vhf_center_hz = 154000000

abbrev submodel : Text → Text → ℕ → F32 → Text → ReceiverSubmodelPreset
submodel id label rate gain notes = record {
  id = id;
  label = label;
  sample_rate_hz = rate;
  gain_db = gain;
  ppm = 0;
  center_frequency_hz = public_safety_vhf_center_hz;
  notes = notes;
}

abbrev pub rtl_submodels : List ReceiverSubmodelPreset
rtl_submodels =
    submodel (codes "v3") (codes "RTL-SDR Blog V3") 2400000 0x4200_0000
      (codes "1 PPM TCXO, R860 tuner, bias-tee available. Stable max rate 2.4 MS/s.")
    ∷ submodel (codes "v4") (codes "RTL-SDR Blog V4 / V4L") 2400000 0x4200_0000
        (codes "Improved front-end filtering; requires recent rtl-sdr drivers.")
    ∷ submodel (codes "generic") (codes "Generic RTL2832U") 2048000 0x4210_0000
        (codes "Clock quality varies; calibrate PPM before trunking.")
    ∷ []

abbrev pub sdrplay_submodels : List ReceiverSubmodelPreset
sdrplay_submodels =
    submodel (codes "rsp1") (codes "RSP1") 2000000 0x4220_0000
      (codes "Legacy RSP1. IF gain 20-59 dB.")
    ∷ submodel (codes "rsp1a") (codes "RSP1A") 4000000 0x4220_0000
        (codes "Up to 10 MS/s (12-bit packed above 2 MS/s). IF gain 20-59, RF 0-9 dB.")
    ∷ submodel (codes "rsp1b") (codes "RSP1B") 4000000 0x4220_0000
        (codes "Up to 10 MS/s; 11 band preselection filters; onboard bias-T.")
    ∷ submodel (codes "rspdx") (codes "RSPdx") 4000000 0x4220_0000
        (codes "Use antenna port A for VHF/UHF trunking.")
    ∷ submodel (codes "rspduo") (codes "RSPduo") 4000000 0x4220_0000
        (codes "Runs tuner A in single-channel mode.")
    ∷ []

abbrev pub airspy_submodels : List ReceiverSubmodelPreset
airspy_submodels =
    submodel (codes "r2") (codes "Airspy R2") 2500000 0x41f0_0000
      (codes "10 or 2.5 MS/s, 12-bit. 24-1700 MHz.")
    ∷ submodel (codes "mini") (codes "Airspy Mini") 3000000 0x41f0_0000
        (codes "6 or 3 MS/s, 12-bit. 24-1700 MHz.")
    ∷ []

unfoldable pub device_presets : List ReceiverDevicePreset
device_presets =
    record { driver = rtl_sdr; label = codes "RTL-SDR"; submodels = rtl_submodels }
    ∷ record { driver = sdrplay; label = codes "SDRplay RSP"; submodels = sdrplay_submodels }
    ∷ record { driver = airspy; label = codes "Airspy"; submodels = airspy_submodels }
    ∷ []

-- The derived equality.
abbrev driver_eq : ReceiverDriver → ReceiverDriver → Bool
driver_eq rtl_sdr rtl_sdr = true
driver_eq airspy airspy = true
driver_eq sdrplay sdrplay = true
driver_eq hack_rf hack_rf = true
driver_eq pluto_sdr pluto_sdr = true
driver_eq blade_rf blade_rf = true
driver_eq lime_sdr lime_sdr = true
driver_eq generic_soapy generic_soapy = true
driver_eq simulator simulator = true
driver_eq _ _ = false

unfoldable pub submodel_preset : ReceiverDriver → Text → Option ReceiverSubmodelPreset
unfolding device_presets
submodel_preset driver id =
    and_then
      (find (λ (preset : ReceiverDevicePreset). driver_eq preset.driver driver) device_presets)
      λ preset. find (λ (sub : ReceiverSubmodelPreset). text_eq sub.id id) preset.submodels
