-- ===== src/Start.antt =====
-- The start of the process in apps/control-plane/src/state.rs: AppState::new, from what the
-- documents on the disk hold. Reading and parsing a document is the field of Disk of its name,
-- which is none where the file is missing or cannot be parsed.
pub mod Defaults
pub mod Migration
pub mod Kept
pub mod Settled
pub mod Table
use trunk_scope.Common.{
  ℕ, Bool, true, false, ◌||◌, Option, none, List, [], ◌∷◌, arith, if◌then◌else◌, unwrap_or,
  map_some, and_then, head?, Text, codes, is_empty, id_eq, text_key, Eq,
}
use trunk_scope.Domain.{Receiver, ConversationSession, Talkgroup, Uuid}
use trunk_scope.State.Profiles.{SystemProfile, ScanList, AuditEntry}
use trunk_scope.State.Settings.{AppSettings}
use trunk_scope.State.App.{AppState, Document, talkgroups_document, settings_document}
use trunk_scope.Api.Policy.{policy_of}
use Defaults.{Environment, default_settings}
use Migration.{migrate}
use Table.{read_table}

pub record Disk : Type 0 where
  pub receivers : Option (List Receiver)
  pub systems : Option (List SystemProfile)
  pub talkgroups : Option (List Talkgroup)
  pub has_talkgroups : Bool  -- `talkgroups_path.is_file()`
  pub table : Option Text  -- imported-talkgroups.csv
  pub sessions : Option (List ConversationSession)
  pub scan_lists : Option (List ScanList)
  pub audit_log : Option (List AuditEntry)
  pub settings : Option AppSettings

unfoldable pub start_talkgroups : (ℕ → Uuid) → Disk → List Talkgroup
unfolding read_table
start_talkgroups fresh disk =
    let system_id =
      unwrap_or (map_some (λ (s : SystemProfile). s.id) (head? (unwrap_or disk.systems []))) 0 in
    unwrap_or disk.talkgroups (unwrap_or (and_then disk.table (read_table fresh system_id)) [])

unfoldable pub start_settings : Environment → Disk → AppSettings × Bool
unfolding migrate default_settings
start_settings env disk = migrate env (unwrap_or disk.settings (default_settings env))

-- What `new` writes to the disk, the latest first.
unfoldable pub start_documents : List Talkgroup → Disk → AppSettings × Bool → List Document
start_documents talkgroups disk (settings, changed) =
    let first =
      if is_empty talkgroups || disk.has_talkgroups
      then []
      else talkgroups_document talkgroups ∷ [] in
    if changed then settings_document settings ∷ first else first

unfoldable pub new : Environment → (ℕ → Uuid) → Disk → AppState
unfolding start_settings start_talkgroups start_documents
new env fresh disk =
    let migrated = start_settings env disk in
    let settings = migrated.0 in
    let talkgroups = start_talkgroups fresh disk in
    record {
      receivers = unwrap_or disk.receivers [];
      calls = [];
      conversation_sessions = unwrap_or disk.sessions [];
      public_policy = policy_of settings;
      systems = unwrap_or disk.systems [];
      talkgroups = talkgroups;
      scan_lists = unwrap_or disk.scan_lists [];
      active_scan_list = none;
      audit_log = unwrap_or disk.audit_log [];
      receiver_commands = [];
      settings = settings;
      sessions = [];
      decoder_calls = [];
      decoder_systems = [];
      decoder_connected = false;
      decoder_last_event = none;
      decoder_control_lock = none;
      events = [];
      processing = [];
      processing_queue = [];
      processing_queue_depth = 0;
      queue_open = true;
      ai_worker_status = codes "disabled";
      ai_last_error = none;
      persistence = none;
      purge_undo = none;
      config_generation = 0;
      applied_generation = 0;
      force_apply = false;
      audio_alias = [];
      enqueued_calls = [];
      decoder_active_calls = [];
      database = [];
      documents = start_documents talkgroups disk migrated;
      removed_files = [];
    }
