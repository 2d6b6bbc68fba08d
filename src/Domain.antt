-- ===== src/Domain.antt =====
-- The shared domain model, crates/domain/src/lib.rs.
pub mod Policy
use trunk_scope.Common.{ℕ, Bool, true, false, Option, List, Text}
use trunk_scope.Common.Float.{F32, F64}
use trunk_scope.Common.Clock.{Time}
use trunk_scope.Common.Json.{Json}
use trunk_scope.Common.Int.{ℤ}

-- A 128-bit identifier; a fresh one is an argument of the function that draws it.
abbrev pub Uuid : Type 0
Uuid = ℕ

abbrev pub nil_uuid : Uuid
nil_uuid = 0

pub data ReceiverRole : Type 0 where
  general p25 analog : ReceiverRole

pub data ReceiverDriver : Type 0 where
  rtl_sdr airspy sdrplay hack_rf pluto_sdr blade_rf lime_sdr generic_soapy simulator :
      ReceiverDriver

pub data ReceiverState : Type 0 where
  offline probing ready idle monitoring degraded stopped faulted : ReceiverState

pub record ReceiverCapabilities : Type 0 where
  pub minimum_frequency_hz : ℕ
  pub maximum_frequency_hz : ℕ
  pub sample_rates_hz : List ℕ
  pub maximum_bandwidth_hz : ℕ
  pub supports_agc : Bool
  pub gain_elements : List Text

pub record ReceiverHealth : Type 0 where
  pub signal_dbfs : F32
  pub noise_dbfs : F32
  pub frequency_error_hz : F32
  pub dropped_samples : ℕ
  pub updated_at : Time

pub record Receiver : Type 0 where
  pub id : Uuid
  pub label : Text
  pub driver : ReceiverDriver
  pub serial : Text
  pub state : ReceiverState
  pub center_frequency_hz : Option ℕ  -- u64
  pub sample_rate_hz : Option ℕ  -- u32
  pub gain_db : Option F32
  pub gain_settings : Json
  pub ppm : F32
  pub enabled : Bool
  pub role : ReceiverRole
  pub soapy_index : Option ℕ
  pub auto_tune : Option Bool
  pub digital_recorders : Option ℕ
  pub analog_recorders : Option ℕ
  pub dmr_recorders : Option ℕ
  pub capabilities : ReceiverCapabilities
  pub health : ReceiverHealth

pub record Talkgroup : Type 0 where
  pub id : Uuid
  pub system_id : Uuid
  pub decimal_id : ℕ  -- u32
  pub alpha_tag : Text
  pub description : Text
  pub category : Text
  pub priority : ℤ  -- i16
  pub enabled : Bool
  pub record_calls : Bool  -- `record`
  pub public_allowed : Bool
  pub mode : Option Text

pub data CallState : Type 0 where
  active complete failed : CallState

pub data EncryptionState : Type 0 where
  clear encrypted unknown : EncryptionState

pub record IncidentLocation : Type 0 where
  pub label : Text
  pub latitude : F64
  pub longitude : F64
  pub confidence : F32

pub record AudioAsset : Type 0 where
  pub object_key : Text
  pub content_type : Text
  pub duration_ms : ℕ  -- u64

pub record Call : Type 0 where
  pub id : Uuid
  pub system_id : Uuid
  pub system_name : Text
  pub site_id : Uuid
  pub talkgroup_id : ℕ  -- u32
  pub talkgroup_label : Text
  pub category : Text
  pub frequency_hz : ℕ  -- u64
  pub tdma_slot : Option ℕ  -- u8
  pub source_radio_id : Option ℕ  -- u32
  pub started_at : Time
  pub ended_at : Option Time
  pub state : CallState
  pub encryption : EncryptionState
  pub signal_dbfs : F32
  pub transcript : Option Text
  pub summary : Option Text
  pub location : Option IncidentLocation
  pub audio : Option AudioAsset
  pub enrichment : Json

pub record ConversationSession : Type 0 where
  pub id : Uuid
  pub system_id : Uuid
  pub site_id : Uuid
  pub talkgroup_id : ℕ
  pub started_at : Time
  pub last_activity_at : Time
  pub call_ids : List Uuid
  pub audio_keys : List Text
  pub state : Text
  pub transcript : Option Text
  pub summary : Option Text
  pub location : Option IncidentLocation
  pub activity_score : ℕ

pub data CallEvent : Type 0 where
  started updated ended : Call → CallEvent

pub record PublicationPolicy : Type 0 where
  pub enabled : Bool
  pub delay_seconds : ℕ  -- u32
  pub allowed_talkgroups : List Uuid
  pub expose_transcripts : Bool
  pub expose_radio_ids : Bool
  pub expose_precise_locations : Bool

pub data ValidationError : Type 0 where
  public_feed_requires_allowlist public_delay_too_large : ValidationError

-- Derived equalities.
abbrev pub is_clear : EncryptionState → Bool
is_clear clear = true
is_clear _ = false

abbrev pub is_active : CallState → Bool
is_active active = true
is_active _ = false

abbrev pub is_sdrplay : ReceiverDriver → Bool
is_sdrplay sdrplay = true
is_sdrplay _ = false
