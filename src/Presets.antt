-- ===== src/Presets.antt =====
-- apps/control-plane/src/receiver_presets.rs: the presets by device, the names of the drivers, the
-- device strings, and the defaults by driver. Rounding and multiplication of floats are parameters.
pub mod Table
pub mod Names
pub mod Fit
use trunk_scope.Common.{
  ℕ, ◌+◌, ◌-◌, Bool, true, false, ◌&&◌, ◌||◌, List, [], ◌∷◌, ◌++◌, arith, if◌then◌else◌, unwrap_or,
  Text, codes, text_eq, is_empty, trim, to_ascii_lowercase, contains, decimal, lower, id_eq,
  text_key, Eq,
}
use trunk_scope.Common.Float.{F32, lt32}
use trunk_scope.Common.Int.{ℤ, pos, negsuc, max_int, min_int, clamp_int}
use trunk_scope.Common.Json.{Json, pos_int, neg_int, number, object, Members, member, done}
use trunk_scope.Domain.{
  Receiver, ReceiverDriver, rtl_sdr, airspy, sdrplay, hack_rf, pluto_sdr, blade_rf, lime_sdr,
  generic_soapy, simulator, ReceiverCapabilities,
}

unfoldable pub infer_driver_from_device : Text → ReceiverDriver
unfolding contains to_ascii_lowercase
infer_driver_from_device device =
    let lower = to_ascii_lowercase device in
    if contains (codes "simulator") lower
    then simulator
    else if contains (codes "sdrplay") lower
    then sdrplay
    else if contains (codes "airspy") lower
    then airspy
    else if contains (codes "hackrf") lower
    then hack_rf
    else if contains (codes "pluto") lower
    then pluto_sdr
    else if contains (codes "bladerf") lower
    then blade_rf
    else if contains (codes "lms") lower || contains (codes "lime") lower
    then lime_sdr
    else if contains (codes "rtlsdr") lower || contains (codes "rtl-sdr") lower
    then rtl_sdr
    else generic_soapy

abbrev named : Text → ReceiverDriver
named name =
    if text_eq name (codes "rtlsdr") || text_eq name (codes "rtl")
    then rtl_sdr
    else if text_eq name (codes "airspy")
    then airspy
    else if text_eq name (codes "sdrplay")
    then sdrplay
    else if text_eq name (codes "hackrf")
    then hack_rf
    else if text_eq name (codes "plutosdr") || text_eq name (codes "pluto")
    then pluto_sdr
    else if text_eq name (codes "bladerf")
    then blade_rf
    else if text_eq name (codes "lms") || text_eq name (codes "lime")
    then lime_sdr
    else generic_soapy

unfoldable pub driver_from_soapy_name : Text → ReceiverDriver
unfolding text_eq trim to_ascii_lowercase
driver_from_soapy_name name = named (to_ascii_lowercase (trim name))

unfoldable pub soapy_driver_arg : ReceiverDriver → Text
soapy_driver_arg rtl_sdr = codes "rtlsdr"
soapy_driver_arg airspy = codes "airspy"
soapy_driver_arg sdrplay = codes "sdrplay"
soapy_driver_arg hack_rf = codes "hackrf"
soapy_driver_arg pluto_sdr = codes "plutosdr"
soapy_driver_arg blade_rf = codes "bladerf"
soapy_driver_arg lime_sdr = codes "lms"
soapy_driver_arg generic_soapy = codes "driver"
soapy_driver_arg simulator = codes "driver"

unfoldable pub receivers_share_settings : Receiver → Text → Bool
unfolding trim contains text_eq
receivers_share_settings receiver settings_device =
    is_empty (trim receiver.serial)
    || contains receiver.serial settings_device
    || text_eq receiver.serial (codes "driver=sdrplay")

abbrev soapy_string : ℕ → Text → ReceiverDriver → Text
soapy_string index [] driver =
    if text_eq (soapy_driver_arg driver) (codes "driver")
    then codes "soapy=" ++ decimal index
    else codes "soapy=" ++ decimal index ++ codes ",driver=" ++ soapy_driver_arg driver
soapy_string index (c ∷ serial) driver = codes "soapy=" ++ decimal index ++ codes "," ++ c ∷ serial

unfoldable pub device_string : Receiver → Text → ℕ → Text
unfolding trim contains text_eq receivers_share_settings soapy_driver_arg decimal
device_string receiver settings_device index =
    let serial = trim receiver.serial in
    if contains (codes "remote=") serial || contains (codes "soapy=") serial
    then serial
    else if contains (codes "remote=") settings_device
        && receivers_share_settings receiver settings_device
    then settings_device
    else soapy_string (unwrap_or receiver.soapy_index index) serial receiver.driver

-- What the defaults take from the arithmetic of `f32`.
pub record Rounding : Type 0 where
  pub round_to_i64 : F32 → ℤ  -- `.round() as i64`
  pub multiply : F32 → F32 → F32

abbrev integer : ℤ → Json
integer (pos n) = number (pos_int n)
integer (negsuc n) = number (neg_int n)

abbrev gains : List (Text × ℤ) → Members
gains [] = done
gains ((name, gain) ∷ rest) = member name (integer gain) (gains rest)

-- `clamp(0.0, 45.0)`.
abbrev clamp_gain : F32 → F32
clamp_gain gain = if lt32 gain 0 then 0 else if lt32 0x4234_0000 gain then 0x4234_0000 else gain

module _ (r : Rounding) where
  abbrev element_gain : F32 → F32 → ℤ
  element_gain gain share =
      clamp_int (pos 0) (pos 15) (r.round_to_i64 (r.multiply (clamp_gain gain) share))

  -- The elements of the object, in order.
  unfoldable pub gain_elements_of : ReceiverDriver → F32 → List (Text × ℤ)
  unfolding lt32
  gain_elements_of sdrplay gain_db =
      (codes "IFGR", min_int (max_int (r.round_to_i64 gain_db) (pos 20)) (pos 59))
      ∷ (codes "RFGR", pos 4)
      ∷ []
  gain_elements_of rtl_sdr gain_db =
      (codes "LNA", min_int (max_int (r.round_to_i64 gain_db) (pos 0)) (pos 49))
      ∷ (codes "TUNER", min_int (max_int (r.round_to_i64 gain_db) (pos 0)) (pos 49))
      ∷ []
  gain_elements_of airspy gain_db =
      (codes "LNA", element_gain gain_db 0x3e8a_3d71)
      ∷ (codes "MIX", element_gain gain_db 0x3e4c_cccd)
      ∷ (codes "VGA", element_gain gain_db 0x3ebd_70a4)
      ∷ []
  gain_elements_of hack_rf gain_db =
      (codes "LNA", min_int (max_int (r.round_to_i64 gain_db) (pos 0)) (pos 40))
      ∷ (codes "VGA", min_int (max_int (r.round_to_i64 gain_db) (pos 0)) (pos 62))
      ∷ (codes "AMP", pos 0)
      ∷ []
  gain_elements_of pluto_sdr gain_db = (codes "hardwaregain", r.round_to_i64 gain_db) ∷ []
  gain_elements_of lime_sdr gain_db = (codes "hardwaregain", r.round_to_i64 gain_db) ∷ []
  gain_elements_of blade_rf gain_db = (codes "gain", r.round_to_i64 gain_db) ∷ []
  gain_elements_of generic_soapy gain_db = (codes "gain", r.round_to_i64 gain_db) ∷ []
  gain_elements_of simulator gain_db = (codes "gain", r.round_to_i64 gain_db) ∷ []

  unfoldable pub default_gain_settings : ReceiverDriver → F32 → Json
  unfolding gain_elements_of
  default_gain_settings driver gain_db = object (gains (gain_elements_of driver gain_db))

abbrev capabilities : ℕ → ℕ → List ℕ → ℕ → Bool → List Text → ReceiverCapabilities
capabilities minimum maximum rates bandwidth agc elements = record {
  minimum_frequency_hz = minimum;
  maximum_frequency_hz = maximum;
  sample_rates_hz = rates;
  maximum_bandwidth_hz = bandwidth;
  supports_agc = agc;
  gain_elements = elements;
}

abbrev other_capabilities : ReceiverCapabilities
other_capabilities =
    capabilities 1000000 2000000000 (2000000 ∷ 2048000 ∷ 2400000 ∷ []) 2000000 true
      (codes "LNA" ∷ codes "VGA" ∷ [])

unfoldable pub default_capabilities : ReceiverDriver → ReceiverCapabilities
default_capabilities sdrplay =
    capabilities 1000 2000000000
      (500000 ∷ 1000000 ∷ 2000000 ∷ 4000000 ∷ 6000000 ∷ 8000000 ∷ 10000000 ∷ []) 8000000 true
      (codes "IFGR" ∷ codes "RFGR" ∷ [])
default_capabilities rtl_sdr =
    capabilities 24000000 1766000000
      (250000 ∷ 1024000 ∷ 1400000 ∷ 1800000 ∷ 1920000 ∷ 2048000 ∷ 2400000 ∷ []) 2400000 true
      (codes "TUNER" ∷ [])
default_capabilities airspy =
    capabilities 24000000 1700000000 (2500000 ∷ 3000000 ∷ 6000000 ∷ 10000000 ∷ []) 10000000 false
      (codes "LNA" ∷ codes "MIX" ∷ codes "VGA" ∷ [])
default_capabilities hack_rf =
    capabilities 1000000 6000000000 (2000000 ∷ 4000000 ∷ 8000000 ∷ 10000000 ∷ []) 20000000 false
      (codes "LNA" ∷ codes "VGA" ∷ codes "AMP" ∷ [])
default_capabilities simulator =
    capabilities 24000000 1766000000 (1024000 ∷ 2400000 ∷ 3200000 ∷ []) 3200000 true
      (codes "LNA" ∷ [])
default_capabilities pluto_sdr = other_capabilities
default_capabilities blade_rf = other_capabilities
default_capabilities lime_sdr = other_capabilities
default_capabilities generic_soapy = other_capabilities
