-- ===== src/Api/Receivers.antt =====
-- The receiver handlers of apps/control-plane/src/api.rs.
use trunk_scope.Common.{
  ℕ, Bool, true, false, not, Option, [], ◌∷◌, ◌++◌, ◌==◌, if◌then◌else◌, length, any, retain,
  update_first, Text, codes, is_empty, trim, id_eq, text_key,
}
use trunk_scope.Common.Clock.{Time}
use trunk_scope.Common.Float.{F32, f32_0, f32_neg_120}
use trunk_scope.Common.Json.{Json}
use trunk_scope.Domain.{
  Uuid, Receiver, ReceiverDriver, ReceiverRole, ReceiverState, stopped, probing, monitoring,
}
use trunk_scope.State.Profiles.{ReceiverCommand, probe, start, stop, restart}
use trunk_scope.State.App.{AppState, persist, save_receivers, write_document, receivers_document}
use trunk_scope.State.Calls.{audit}
use trunk_scope.Presets.{default_capabilities}
use trunk_scope.Api.Policy.{Status, unauthorized, bad_request, not_found, ok, created, no_content}
use trunk_scope.Api.Talkgroups.{write_decoder_config}

pub record ReceiverInput : Type 0 where
  pub label : Text
  pub driver : ReceiverDriver
  pub serial : Text
  pub center_frequency_hz : Option ℕ
  pub sample_rate_hz : Option ℕ
  pub gain_db : Option F32
  pub gain_settings : Json
  pub ppm : F32
  pub enabled : Bool
  pub role : ReceiverRole
  pub soapy_index : Option ℕ
  pub auto_tune : Option Bool
  pub digital_recorders : Option ℕ
  pub analog_recorders : Option ℕ
  pub dmr_recorders : Option ℕ

unfoldable pub receiver_from_input : Time → ReceiverInput → Uuid → Receiver
unfolding default_capabilities
receiver_from_input now input id = record {
  id = id;
  label = input.label;
  driver = input.driver;
  serial = input.serial;
  state = stopped;
  center_frequency_hz = input.center_frequency_hz;
  sample_rate_hz = input.sample_rate_hz;
  gain_db = input.gain_db;
  gain_settings = input.gain_settings;
  ppm = input.ppm;
  enabled = input.enabled;
  role = input.role;
  soapy_index = input.soapy_index;
  auto_tune = input.auto_tune;
  digital_recorders = input.digital_recorders;
  analog_recorders = input.analog_recorders;
  dmr_recorders = input.dmr_recorders;
  capabilities = default_capabilities input.driver;
  health = record {
    signal_dbfs = f32_neg_120;
    noise_dbfs = f32_neg_120;
    frequency_error_hz = f32_0;
    dropped_samples = 0;
    updated_at = now;
  };
}

abbrev pub receiver_has_id : Uuid → Receiver → Bool
receiver_has_id id receiver = receiver.id == id

unfoldable pub persist_receivers : AppState → AppState
unfolding persist write_document
persist_receivers s =
    persist (save_receivers s.receivers) (write_document (receivers_document s.receivers) s)

abbrev recorded : Time → Text → Text → AppState → AppState
recorded now action shown s = audit now action (codes "receiver") shown s

unfoldable pub create_receiver :
    (Uuid → Text) → Bool → Time → Uuid → ReceiverInput → AppState → Status × AppState
unfolding receiver_from_input persist_receivers write_decoder_config audit trim
create_receiver show false now fresh input s = (unauthorized, s)
create_receiver show true now fresh input s =
    if is_empty (trim input.label) then (bad_request, s) else (
      created,
      recorded now (codes "receiver.create") (show fresh) (
          write_decoder_config (
            persist_receivers
              (record s { receivers = s.receivers ++ receiver_from_input now input fresh ∷ [] }))),
    )

-- The stored receiver keeps its state, capabilities and health.
abbrev updated_receiver : Time → ReceiverInput → Uuid → Receiver → Receiver
updated_receiver now input id existing = record (receiver_from_input now input id) {
  state = existing.state;
  capabilities = existing.capabilities;
  health = existing.health;
}

unfoldable pub update_receiver :
    (Uuid → Text) → Bool → Time → Uuid → ReceiverInput → AppState → Status × AppState
unfolding receiver_from_input persist_receivers write_decoder_config audit
update_receiver show false now id input s = (unauthorized, s)
update_receiver show true now id input s =
    if any (receiver_has_id id) s.receivers
    then (
      ok,
      recorded now (codes "receiver.update") (show id) (
          write_decoder_config (
            persist_receivers (record s {
              receivers =
                  update_first (receiver_has_id id) (updated_receiver now input id) s.receivers;
            }))),
    )
    else (not_found, s)

abbrev send_command : ReceiverCommand → AppState → AppState
send_command command s = record s { receiver_commands = command ∷ s.receiver_commands }

unfoldable pub delete_receiver : (Uuid → Text) → Bool → Time → Uuid → AppState → Status × AppState
unfolding persist_receivers write_decoder_config audit
delete_receiver show false now id s = (unauthorized, s)
delete_receiver show true now id s =
    let receivers = retain (λ (r : Receiver). not (receiver_has_id id r)) s.receivers in
    if length receivers == length s.receivers then (not_found, s) else (
      no_content,
      recorded now (codes "receiver.delete") (show id) (
          send_command (stop id)
            (write_decoder_config (persist_receivers (record s { receivers = receivers })))),
    )

abbrev command_for : ReceiverState → Uuid → ReceiverCommand
command_for probing = probe
command_for monitoring = start
command_for stopped = stop
command_for _ = restart

abbrev acted : Time → ReceiverState → Receiver → Receiver
acted now action receiver =
    let health = receiver.health in
    record receiver { state = action; health = record health { updated_at = now } }

unfoldable pub receiver_action : Bool → Time → Uuid → ReceiverState → AppState → Status × AppState
receiver_action false now id action s = (unauthorized, s)
receiver_action true now id action s =
    if any (receiver_has_id id) s.receivers
    then (
      ok,
      send_command (command_for action id) (record s {
        receivers = update_first (receiver_has_id id) (acted now action) s.receivers;
      }),
    )
    else (not_found, s)

unfoldable pub receiver_start : Bool → Time → Uuid → AppState → Status × AppState
unfolding receiver_action
receiver_start allowed now id s = receiver_action allowed now id monitoring s

unfoldable pub receiver_stop : Bool → Time → Uuid → AppState → Status × AppState
unfolding receiver_action
receiver_stop allowed now id s = receiver_action allowed now id stopped s

unfoldable pub receiver_restart : Bool → Time → Uuid → AppState → Status × AppState
unfolding receiver_action
receiver_restart allowed now id s = receiver_action allowed now id probing s
