-- ===== src/Radio.antt =====
-- The radio daemon's configuration and its events, apps/control-plane/src/radiod.rs.
pub mod Events
pub mod Plan
pub mod Supervisor
use trunk_scope.Common.{
  ℕ, ◌-◌, ◌/◌, Bool, true, Option, none, some, List, [], ◌∷◌, arith, ◌==◌, if◌then◌else◌, unwrap_or,
  and_then, find, update_first, Text, codes, text_eq, is_empty, trim, id_eq, text_key, Eq,
}
use trunk_scope.Common.Clock.{Time}
use trunk_scope.Common.Float.{F32, f32_neg_70, f32_neg_200, f32_0}
use trunk_scope.Common.Json.{object, done}
use trunk_scope.Domain.{Uuid, Receiver, ReceiverState, probing, offline, general, is_sdrplay}
use trunk_scope.State.Profiles.{SystemProfile}
use trunk_scope.State.App.{AppState}
use trunk_scope.Presets.{infer_driver_from_device, default_capabilities}

-- The process's environment variables.
pub record Environment : Type 0 where
  pub radio_device : Option Text
  pub radiod_path : Option Text
  pub calls_path : Option Text

pub record RadioConfig : Type 0 where
  pub executable : Text
  pub device : Text
  pub frequency_hz : ℕ
  pub sample_rate_hz : ℕ
  pub bandwidth_hz : Option ℕ
  pub gain_db : Option F32
  pub agc : Bool
  pub ppm : F32
  pub audio_output : Text
  pub squelch_dbfs : F32

abbrev pub is_analog_fm : SystemProfile → Bool
is_analog_fm profile = text_eq profile.protocol (codes "analog-fm")

abbrev config_of : Environment → AppState → Text → RadioConfig
config_of env s device = record {
  executable = unwrap_or env.radiod_path (codes "/usr/local/bin/trunkscope-radiod");
  device = device;
  frequency_hz = s.settings.radio_frequency_hz;
  sample_rate_hz = s.settings.radio_sample_rate_hz;
  bandwidth_hz = s.settings.radio_bandwidth_hz;
  gain_db = s.settings.radio_gain_db;
  agc = s.settings.radio_agc;
  ppm = s.settings.radio_ppm;
  audio_output = unwrap_or env.calls_path (codes "/var/lib/trunkscope/calls");
  squelch_dbfs =
      unwrap_or
        (and_then (find is_analog_fm s.systems) (λ (profile : SystemProfile). profile.squelch_db))
        f32_neg_70;
}

unfoldable pub from_settings : Environment → AppState → Option RadioConfig
unfolding trim text_eq
from_settings env s =
    and_then
      (if is_empty (trim s.settings.radio_device)
        then env.radio_device
        else some s.settings.radio_device)
      (λ device. if s.settings.radio_frequency_hz == 0 then none else some (config_of env s device))

unfoldable pub initial_receiver : Time → Uuid → RadioConfig → Receiver
unfolding infer_driver_from_device default_capabilities
initial_receiver now id config =
    let driver = infer_driver_from_device config.device in
    record {
      id = id;
      label =
          if is_sdrplay driver then codes "Remote SDRplay RSP1B" else codes "Remote SDR receiver";
      driver = driver;
      serial = config.device;
      state = offline;
      center_frequency_hz = some config.frequency_hz;
      sample_rate_hz = some config.sample_rate_hz;
      gain_db = config.gain_db;
      gain_settings = object done;
      ppm = config.ppm;
      enabled = true;
      role = general;
      soapy_index = some 0;
      auto_tune = none;
      digital_recorders = none;
      analog_recorders = none;
      dmr_recorders = none;
      capabilities = default_capabilities driver;
      health = record {
        signal_dbfs = f32_neg_200;
        noise_dbfs = f32_neg_200;
        frequency_error_hz = f32_0;
        dropped_samples = 0;
        updated_at = now;
      };
    }

unfoldable pub set_state : Time → Uuid → ReceiverState → AppState → AppState
set_state now id state s = record s {
  receivers =
      update_first (λ (r : Receiver). r.id == id)
        (λ (r : Receiver).
          let health = r.health in
          record r { state = state; health = record health { updated_at = now } })
        s.receivers;
}

-- The receiver that `spawn` adopts, the first one, or adds; and the state then.
abbrev adopted : RadioConfig → Receiver → Receiver
adopted config receiver = record receiver {
  driver = infer_driver_from_device config.device;
  center_frequency_hz = some config.frequency_hz;
  sample_rate_hz = some config.sample_rate_hz;
  gain_db = config.gain_db;
  ppm = config.ppm;
  state = probing;
}

abbrev adopt_first : Time → Uuid → RadioConfig → List Receiver → Uuid × List Receiver
adopt_first now fresh config [] = (fresh, initial_receiver now fresh config ∷ [])
adopt_first now fresh config (receiver ∷ rest) = (receiver.id, adopted config receiver ∷ rest)

unfoldable pub adopt_receiver : Time → Uuid → RadioConfig → AppState → Uuid × AppState
unfolding initial_receiver infer_driver_from_device
adopt_receiver now fresh config s =
    let adopted = adopt_first now fresh config s.receivers in
    (adopted.0, record s { receivers = adopted.1 })
