-- ===== src/Api/Corrections.antt =====
-- The handlers of apps/control-plane/src/api.rs that show stored calls and let an operator correct
-- them: calls, update_call_transcript, retranscribe_call, update_call_location,
-- confirm_session_location and call_enrichment.
pub mod Located
use trunk_scope.Common.{
  ℕ, min, max, Bool, true, false, ◌||◌, Option, none, some, List, [], ◌∷◌, arith, ltb, ◌==◌,
  if◌then◌else◌, unwrap_or, map_some, take, any, find, Text, is_empty, trim, utf8_len, id_eq,
  text_key, Eq,
}
use trunk_scope.Common.Json.{Json}
use trunk_scope.Domain.{Uuid, Call, IncidentLocation, ConversationSession}
use trunk_scope.State.App.{AppState}
use trunk_scope.State.Calls.{has_id, override_call_transcript, set_call_location}
use trunk_scope.State.Pipeline.{enqueue_processing}
use trunk_scope.Api.Policy.{Status, unauthorized, bad_request, not_found, ok, no_content}

-- `limit.unwrap_or(50).clamp(1, 200)` calls, from the front.
unfoldable pub calls : Option ℕ → AppState → List Call
calls limit s = take (min 200 (max 1 (unwrap_or limit 50))) s.calls

abbrev overridden : Option Call × AppState → Status × AppState
overridden (some call, s) = (ok, s)
overridden (none, s) = (not_found, s)

unfoldable pub update_call_transcript : Bool → Uuid → Text → AppState → Status × AppState
unfolding override_call_transcript trim utf8_len
update_call_transcript false id transcript s = (unauthorized, s)
update_call_transcript true id transcript s =
    if is_empty (trim transcript) || ltb 20000 (utf8_len (trim transcript))
    then (bad_request, s)
    else overridden (override_call_transcript id (trim transcript) s)

unfoldable pub retranscribe_call : Bool → Uuid → AppState → Status × AppState
unfolding enqueue_processing
retranscribe_call false id s = (unauthorized, s)
retranscribe_call true id s = elim (find (has_id id) s.calls) [
  | none ↦ (not_found, s)
  | some call ↦ (ok, enqueue_processing call s)
]

unfoldable pub update_call_location : Bool → Uuid → IncidentLocation → AppState → Status × AppState
unfolding set_call_location
update_call_location false id location s = (unauthorized, s)
update_call_location true id location s =
    if any (has_id id) s.calls
    then (no_content, set_call_location id location s)
    else (not_found, s)

abbrev pub session_has_id : Uuid → ConversationSession → Bool
session_has_id id session = session.id == id

unfoldable pub locate_calls : List Uuid → IncidentLocation → AppState → AppState
unfolding set_call_location
locate_calls [] location s = s
locate_calls (id ∷ ids) location s = locate_calls ids location (set_call_location id location s)

unfoldable pub confirm_session_location :
    Bool → Uuid → IncidentLocation → AppState → Status × AppState
unfolding locate_calls
confirm_session_location false id location s = (unauthorized, s)
confirm_session_location true id location s =
    elim (find (session_has_id id) s.conversation_sessions) [
      | none ↦ (not_found, s)
      | some session ↦ (no_content, locate_calls session.call_ids location s)
    ]

unfoldable pub call_enrichment : Uuid → AppState → Option Json
call_enrichment id s = map_some (λ (call : Call). call.enrichment) (find (has_id id) s.calls)
