-- ===== src/State/App.antt =====
-- AppState of apps/control-plane/src/state.rs, a lock's content as a field. What the code sends
-- out of the process is a list with the latest first: the broadcast channels, the persistence
-- commands, the SQL statements, the documents written, and the audio files removed. The paths of the documents and
-- the write's success, which the code ignores, are left out.
use trunk_scope.Common.{ℕ, Bool, Option, none, some, List, [], ◌∷◌, Text, Map}
use trunk_scope.Common.Clock.{Time}
use trunk_scope.Common.Paths.{Component}
use trunk_scope.Domain.{
  Uuid, Receiver, Call, CallEvent, ConversationSession, PublicationPolicy, Talkgroup,
}
use trunk_scope.State.Profiles.{SystemProfile, ScanList, AuditEntry, ReceiverCommand}
use trunk_scope.State.Settings.{AppSettings}

-- Command of persistence.rs, which a worker writes to Postgres.
pub data Command : Type 0 where
  save_call : Call → Command
  save_settings_row : AppSettings → Command
  save_system_row : SystemProfile → Command
  save_scan_list_row : ScanList → Command
  save_audit : AuditEntry → Command
  save_receivers : List Receiver → Command
  delete_system_row : Uuid → Command
  delete_scan_list_row : Uuid → Command

-- A statement of sqlite.rs on the table `calls`.
pub data Statement : Type 0 where
  upsert_row : Call → Statement
  delete_row : Uuid → Statement

-- A JSON document replaced by `atomic_write`.
pub data Document : Type 0 where
  sessions_document : List ConversationSession → Document
  audit_document : List AuditEntry → Document
  settings_document : AppSettings → Document
  systems_document : List SystemProfile → Document
  scan_lists_document : List ScanList → Document
  talkgroups_document : List Talkgroup → Document
  receivers_document : List Receiver → Document
  imported_talkgroups_csv : Text → Document

pub record AppState : Type 0 where
  pub receivers : List Receiver
  pub calls : List Call
  pub conversation_sessions : List ConversationSession
  pub public_policy : PublicationPolicy
  pub systems : List SystemProfile
  pub talkgroups : List Talkgroup
  pub scan_lists : List ScanList
  pub active_scan_list : Option Uuid
  pub audit_log : List AuditEntry
  pub receiver_commands : List ReceiverCommand
  pub settings : AppSettings
  pub sessions : Map Text Text
  pub decoder_calls : Map Text Uuid
  pub decoder_systems : Map Text Uuid
  pub decoder_connected : Bool
  pub decoder_last_event : Option Time
  pub decoder_control_lock : Option Time
  pub events : List CallEvent
  pub processing : List Call
  pub processing_queue : List Call
  pub processing_queue_depth : ℕ
  pub queue_open : Bool  -- the queue's receiver lives
  pub ai_worker_status : Text
  pub ai_last_error : Option Text
  pub persistence : Option (List Command)
  pub purge_undo : Option (List Call)
  pub config_generation : ℕ
  pub applied_generation : ℕ
  pub force_apply : Bool
  pub audio_alias : Map Text Uuid
  pub enqueued_calls : List Uuid
  pub decoder_active_calls : Map Uuid Time
  pub database : List Statement
  pub documents : List Document
  pub removed_files : List (List Component)

-- `if let Some(sender) = persistence { sender.send(command) }`
unfoldable pub persist : Command → AppState → AppState
persist c s = elim s.persistence [
  | none ↦ s
  | some sent ↦ record s { persistence = some (c ∷ sent) }
]

unfoldable pub write_document : Document → AppState → AppState
write_document d s = record s { documents = d ∷ s.documents }

unfoldable pub send_event : CallEvent → AppState → AppState
send_event e s = record s { events = e ∷ s.events }

unfoldable pub execute : Statement → AppState → AppState
execute q s = record s { database = q ∷ s.database }

-- `sqlite::delete_calls`.
unfoldable pub delete_calls : List Uuid → AppState → AppState
unfolding execute
delete_calls [] s = s
delete_calls (id ∷ ids) s = delete_calls ids (execute (delete_row id) s)
