-- ===== src/State/Calls.antt =====
-- The recent calls: upsert_call and the other writers of `calls` in
-- apps/control-plane/src/state.rs, with the start from apps/control-plane/src/sqlite.rs.
pub mod Store
pub mod Writers
pub mod Startup
use trunk_scope.Common.{
  ℕ, ◌+◌, ◌-◌, Bool, Option, none, some, List, [], ◌∷◌, ◌++◌, reverse, arith, ◌==◌, if◌then◌else◌,
  or_else, map_some, length, take, drop, any, find, update_first, Text, codes, is_empty, id_eq,
  text_key, Eq,
}
use trunk_scope.Common.Clock.{Time}
use trunk_scope.Common.Json.{Json, object, done, Members, put_member}
use trunk_scope.Domain.{Uuid, Call, CallEvent, updated, IncidentLocation, ConversationSession}
use trunk_scope.State.Profiles.{AuditEntry}
use trunk_scope.State.App.{
  AppState, persist, save_call, save_audit, execute, upsert_row, send_event, write_document,
  sessions_document, audit_document,
}
use trunk_scope.State.Sessions.{update_conversation_session}

abbrev pub max_recent_calls : ℕ
max_recent_calls = 200

abbrev pub has_id : Uuid → Call → Bool
has_id id call = call.id == id

-- The write to `calls` in `upsert_call`.
unfoldable pub put_call : Call → List Call → List Call
put_call call calls =
    if any (has_id call.id) calls
    then update_first (has_id call.id) (λ _. call) calls
    else take max_recent_calls (call ∷ calls)

-- `fresh` names the session that the call may open.
unfoldable pub upsert_call : Uuid → Call → CallEvent → AppState → AppState
upsert_call fresh call event s =
    let stored = record s { calls = put_call call s.calls } in
    let grouped = update_conversation_session fresh call stored in
    send_event event (execute (upsert_row call) (persist (save_call call) grouped))

-- The changed call goes to the persistence worker, to SQLite and to the listeners.
unfoldable pub publish : Call → AppState → AppState
unfolding send_event execute persist
publish call s = send_event (updated call) (execute (upsert_row call) (persist (save_call call) s))

-- `calls.iter_mut().find(id)`, a write, and the call written.
unfoldable pub edit_call : Uuid → (Call → Call) → AppState → Option (Call × AppState)
edit_call id change s =
    map_some
      (λ (call : Call). (change call, record s { calls = update_first (has_id id) change s.calls }))
      (find (has_id id) s.calls)

abbrev holds_call : Uuid → ConversationSession → Bool
holds_call id session = any (λ i. i == id) session.call_ids

abbrev append_line : Text → Option Text → Text
append_line line none = line
append_line line (some []) = line
append_line line (some (c ∷ text)) = (c ∷ text) ++ 10 ∷ line

abbrev transcribed : Text → Option Text → ConversationSession → ConversationSession
transcribed transcript summary session = record session {
  transcript = some (append_line transcript session.transcript);
  summary = or_else summary session.summary;
  state = codes "processing";
}

-- The session's part of `enrich_call`.
unfoldable pub enrich_session : Uuid → Text → Option Text → AppState → AppState
unfolding write_document
enrich_session id transcript summary s =
    let sessions =
      update_first (holds_call id) (transcribed transcript summary) s.conversation_sessions in
    if any (holds_call id) s.conversation_sessions
    then write_document (sessions_document sessions) (record s { conversation_sessions = sessions })
    else s

unfoldable pub enrich_call : Uuid → Text → Option Text → AppState → AppState
unfolding enrich_session publish edit_call
enrich_call id transcript summary s =
    elim (edit_call id (λ call. record call { transcript = some transcript; summary = summary })
      s) [ none ↦ s | some (call, t) ↦ publish call (enrich_session id transcript summary t) ]

abbrev pub members_of : Json → Members
members_of (object m) = m
members_of _ = done

-- The order of the last two sends is the code's.
unfoldable pub set_call_enrichment : Uuid → Text → Json → AppState → AppState
unfolding send_event execute persist edit_call
set_call_enrichment id task result s =
    elim (edit_call id
      (λ call. record call {
        enrichment = object (put_member task result (members_of call.enrichment));
      })
      s) [
        | none ↦ s
        | some (call, t) ↦
            persist (save_call call) (send_event (updated call) (execute (upsert_row call) t))
      ]

unfoldable pub override_call_transcript : Uuid → Text → AppState → Option Call × AppState
unfolding publish edit_call
override_call_transcript id transcript s =
    elim (edit_call id (λ call. record call { transcript = some transcript }) s) [
      | none ↦ (none, s)
      | some (call, t) ↦ (some call, publish call t)
    ]

unfoldable pub locate_session : Uuid → IncidentLocation → AppState → AppState
unfolding write_document
locate_session id location s =
    let sessions =
      update_first (holds_call id) (λ session. record session { location = some location })
        s.conversation_sessions in
    write_document (sessions_document sessions) (record s { conversation_sessions = sessions })

unfoldable pub set_call_location : Uuid → IncidentLocation → AppState → AppState
unfolding locate_session publish edit_call
set_call_location id location s =
    elim (edit_call id (λ call. record call { location = some location }) s) [
      | none ↦ s
      | some (call, t) ↦ publish call (locate_session id location t)
    ]

-- `hydrate` of sqlite.rs, from the calls that its query gave, latest first.
unfoldable pub add_missing : List Call → List Call → List Call
add_missing [] calls = calls
add_missing (call ∷ loaded) calls =
    add_missing loaded (if any (has_id call.id) calls then calls else calls ++ call ∷ [])

unfoldable pub hydrate : List Call → AppState → AppState
unfolding add_missing
hydrate loaded s =
    let calls = add_missing (reverse loaded) s.calls in
    if is_empty loaded then s else record s { calls = drop (length calls - max_recent_calls) calls }

unfoldable pub audit : Time → Text → Text → Text → AppState → AppState
unfolding persist write_document
audit now action resource_type resource_id s =
    let entry : AuditEntry = record {
      action = action;
      resource_type = resource_type;
      resource_id = resource_id;
      occurred_at = now;
    } in
    let log = take 500 (entry ∷ s.audit_log) in
    persist (save_audit entry) (write_document (audit_document log) (record s { audit_log = log }))
