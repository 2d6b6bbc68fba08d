-- ===== src/Presets/Names.antt =====
-- The driver names of apps/control-plane/src/receiver_presets.rs read back.
use trunk_scope.Common.{◌≡◌, refl, text_eq, trim, to_ascii_lowercase, id_eq, text_key}
use trunk_scope.Domain.{
  ReceiverDriver, rtl_sdr, airspy, sdrplay, hack_rf, pluto_sdr, blade_rf, lime_sdr, generic_soapy,
  simulator,
}
use trunk_scope.Presets.{soapy_driver_arg, driver_from_soapy_name}

-- The simulator has no SoapySDR name of its own.
abbrev pub generic_of_simulator : ReceiverDriver → ReceiverDriver
generic_of_simulator simulator = generic_soapy
generic_of_simulator driver = driver

-- Each driver is read back from the SoapySDR name that a device string carries for it; the
-- simulator, which has none of its own, is read back as the generic driver.
driver_from_soapy_name-soapy_driver_arg :
    (driver : ReceiverDriver)
    → driver_from_soapy_name (soapy_driver_arg driver) ≡ generic_of_simulator driver
unfolding driver_from_soapy_name soapy_driver_arg trim to_ascii_lowercase text_eq
driver_from_soapy_name-soapy_driver_arg rtl_sdr = refl
driver_from_soapy_name-soapy_driver_arg airspy = refl
driver_from_soapy_name-soapy_driver_arg sdrplay = refl
driver_from_soapy_name-soapy_driver_arg hack_rf = refl
driver_from_soapy_name-soapy_driver_arg pluto_sdr = refl
driver_from_soapy_name-soapy_driver_arg blade_rf = refl
driver_from_soapy_name-soapy_driver_arg lime_sdr = refl
driver_from_soapy_name-soapy_driver_arg generic_soapy = refl
driver_from_soapy_name-soapy_driver_arg simulator = refl
