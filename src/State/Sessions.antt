-- ===== src/State/Sessions.antt =====
-- Conversation sessions: update_conversation_session and finalize_expired_sessions of
-- apps/control-plane/src/state.rs.
pub mod Grouping
use trunk_scope.Common.{
  ◌+◌, max, Bool, not, ◌&&◌, Option, none, some, List, [], ◌∷◌, ◌++◌, map, arith, ltb, leb, ◌==◌,
  if◌then◌else◌, unwrap_or, take, any, update_first, Text, codes, text_eq, id_eq, text_key, Eq,
}
use trunk_scope.Common.Clock.{Time, seconds, seconds_between}
use trunk_scope.Common.Sort.{sort_desc}
use trunk_scope.Domain.{Uuid, Call, ConversationSession, AudioAsset, is_clear}
use trunk_scope.State.App.{AppState, write_document, sessions_document}

abbrev pub open_state : Text
open_state = codes "open"

abbrev pub finalized_state : Text
finalized_state = codes "finalized"

-- When the call was last heard.
abbrev pub heard_at : Call → Time
heard_at call = unwrap_or call.ended_at call.started_at

-- The test by which a call joins a session.
unfoldable pub joins : Call → ConversationSession → Bool
joins call session =
    session.system_id == call.system_id
    && session.site_id == call.site_id
    && session.talkgroup_id == call.talkgroup_id
    && leb (seconds_between session.last_activity_at (heard_at call)) 10
    && not (text_eq session.state finalized_state)

abbrev pub push_new : Uuid → List Uuid → List Uuid
push_new id ids = if any (λ i. i == id) ids then ids else ids ++ id ∷ []

abbrev pub push_new_key : Option AudioAsset → List Text → List Text
push_new_key none keys = keys
push_new_key (some audio) keys =
    if any (text_eq audio.object_key) keys then keys else keys ++ audio.object_key ∷ []

unfoldable pub join : Call → ConversationSession → ConversationSession
join call session = record session {
  call_ids = push_new call.id session.call_ids;
  audio_keys = push_new_key call.audio session.audio_keys;
  last_activity_at = max session.last_activity_at (heard_at call);
}

abbrev pub key_of : Option AudioAsset → List Text
key_of none = []
key_of (some audio) = audio.object_key ∷ []

unfoldable pub new_session : Uuid → Call → ConversationSession
new_session fresh call = record {
  id = fresh;
  system_id = call.system_id;
  site_id = call.site_id;
  talkgroup_id = call.talkgroup_id;
  started_at = call.started_at;
  last_activity_at = heard_at call;
  call_ids = call.id ∷ [];
  audio_keys = key_of call.audio;
  state = open_state;
  transcript = none;
  summary = none;
  location = call.location;
  activity_score = 0;
}

abbrev pub last_activity : ConversationSession → Time
last_activity session = session.last_activity_at

unfoldable pub group : Uuid → Call → List ConversationSession → List ConversationSession
unfolding joins join new_session
group fresh call sessions =
    if any (joins call) sessions
    then update_first (joins call) (join call) sessions
    else sessions ++ new_session fresh call ∷ []

unfoldable pub update_conversation_session : Uuid → Call → AppState → AppState
unfolding write_document
update_conversation_session fresh call s =
    let sessions = take 500 (sort_desc last_activity (group fresh call s.conversation_sessions)) in
    if is_clear call.encryption
    then write_document (sessions_document sessions) (record s { conversation_sessions = sessions })
    else s

abbrev pub is_expired : Time → ConversationSession → Bool
is_expired now session =
    not (text_eq session.state finalized_state) && ltb (session.last_activity_at + seconds 20) now

unfoldable pub finalize : Time → ConversationSession → ConversationSession
finalize now session =
    if is_expired now session then record session { state = finalized_state } else session

unfoldable pub finalize_expired_sessions : Time → AppState → AppState
unfolding finalize write_document
finalize_expired_sessions now s =
    let sessions = map (finalize now) s.conversation_sessions in
    if any (is_expired now) s.conversation_sessions
    then write_document (sessions_document sessions) (record s { conversation_sessions = sessions })
    else s
