-- ===== src/State/Profiles.antt =====
-- The configuration records of apps/control-plane/src/state.rs.
use trunk_scope.Common.{ℕ, Bool, Option, List, Text}
use trunk_scope.Common.Float.{F32, F64}
use trunk_scope.Common.Clock.{Time}
use trunk_scope.Common.Int.{ℤ}
use trunk_scope.Domain.{Uuid}

pub record SystemSite : Type 0 where
  pub id : Uuid
  pub name : Text
  pub control_channels_hz : List ℕ
  pub voice_channels_hz : List ℕ
  pub nac : Option ℕ
  pub latitude : Option F64
  pub longitude : Option F64

pub record SystemProfile : Type 0 where
  pub id : Uuid
  pub name : Text
  pub enabled : Bool
  pub protocol : Text
  pub control_channel_hz : Option ℕ  -- u64
  pub control_channels_hz : List ℕ
  pub nac : Option ℕ  -- u32
  pub frequency_hz : Option ℕ  -- u64
  pub bandwidth_hz : Option ℕ  -- u32
  pub modulation : Option Text
  pub squelch_db : Option F32
  pub tone : Option Text
  pub deviation_hz : Option ℕ
  pub step_hz : Option ℕ
  pub dwell_ms : Option ℕ
  pub sites : List SystemSite
  pub receiver_id : Option Uuid
  pub decode_mdc : Option Bool
  pub monitor_encrypted : Option Bool
  pub color_code : Option ℕ  -- u8
  pub time_slot : Option ℕ  -- u8
  pub contact_id : Option ℕ  -- u32
  pub counties : List Text
  pub townships : List Text
  pub municipalities : List Text
  pub local_context : Option Text

pub record ScanChannel : Type 0 where
  pub id : Uuid
  pub name : Text
  pub frequency_hz : ℕ
  pub modulation : Text
  pub bandwidth_hz : ℕ
  pub squelch_db : F32
  pub tone : Option Text
  pub tone_required : Bool
  pub dwell_ms : ℕ
  pub priority : ℤ
  pub locked_out : Bool

pub record ScanList : Type 0 where
  pub id : Uuid
  pub name : Text
  pub enabled : Bool
  pub pause_on_activity : Bool
  pub resume_after_ms : ℕ
  pub channels : List ScanChannel

pub record AuditEntry : Type 0 where
  pub action : Text
  pub resource_type : Text
  pub resource_id : Text
  pub occurred_at : Time

pub data ReceiverCommand : Type 0 where
  probe start stop restart : Uuid → ReceiverCommand

pub record DiscordTalkgroupRule : Type 0 where
  pub id : Uuid
  pub talkgroup_id : ℕ
  pub webhook_url : Text
  pub enabled : Bool

pub record DiscordKeywordRule : Type 0 where
  pub id : Uuid
  pub keyword : Text
  pub webhook_url : Text
  pub enabled : Bool

pub record AiTaskSettings : Type 0 where
  pub enabled : Bool
  pub provider : Text
  pub model : Text
  pub system_prompt : Text
  pub interval_minutes : ℕ
  pub max_batch : ℕ
  pub confidence_threshold : F32
  pub fallback_model : Text
  pub prompt_version : ℕ
