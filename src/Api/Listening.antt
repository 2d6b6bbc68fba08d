-- ===== src/Api/Listening.antt =====
-- The handlers of apps/control-plane/src/api.rs that send recordings: audio and conversation_audio.
use trunk_scope.Common.{
  ℕ, ◌+◌, ◌-◌, Bool, not, ◌&&◌, ◌||◌, Option, none, some, List, [], ◌∷◌, ◌++◌, if◌then◌else◌,
  and_then, length, take, drop, find, Text, codes, text_eq, is_empty, id_eq, text_key,
}
use trunk_scope.Common.Paths.{Component}
use trunk_scope.Domain.{Uuid, Call, AudioAsset, ConversationSession}
use trunk_scope.State.App.{AppState}
use trunk_scope.State.Calls.{has_id}
use trunk_scope.Api.Range.{parse_range}
use trunk_scope.Api.Audio.{resolve_audio_object_key}
use trunk_scope.Api.Wav.{Bytes, merge_wavs}
use trunk_scope.Api.Corrections.{session_has_id}

-- Where recordings are, what the file system reads there, and the token that allows to listen.
pub record Recordings : Type 0 where
  pub root : List Component
  pub read : List Component → Option Bytes
  pub audio_token : Text

-- The headers of a request that the handlers look at.
pub record Listener : Type 0 where
  pub is_admin : Bool
  pub authorization : Text
  pub range : Option Text

pub data Sent : Type 0 where
  unauthorized not_found : Sent
  whole : Text → Bytes → Sent  -- the content's type, and the body
  part : Text → ℕ → ℕ → ℕ → Bytes → Sent  -- the first place, the last, and the total

unfoldable pub may_listen : Recordings → Listener → Bool
unfolding text_eq
may_listen recordings listener =
    listener.is_admin
    || (not (is_empty recordings.audio_token)
        && text_eq listener.authorization (codes "Bearer " ++ recordings.audio_token))

abbrev sent_bytes : Text → Option Text → Bytes → Sent
sent_bytes content_type range bytes =
    elim (and_then range (λ value. parse_range value (length bytes))) [
      | none ↦ whole content_type bytes
      | some (first, last) ↦
          part content_type first last (length bytes) (take (last + 1 - first) (drop first bytes))
    ]

abbrev sent_file : Recordings → Listener → AudioAsset → Sent
sent_file recordings listener asset =
    elim (and_then (resolve_audio_object_key recordings.root asset.object_key) recordings.read) [
      | none ↦ not_found
      | some bytes ↦ sent_bytes asset.content_type listener.range bytes
    ]

unfoldable pub audio : Recordings → Listener → Uuid → AppState → Sent
unfolding may_listen
audio recordings listener id s =
    if not (may_listen recordings listener)
    then unauthorized
    else elim (and_then (find (has_id id) s.calls) (λ (call : Call). call.audio)) [
      | none ↦ not_found
      | some asset ↦ sent_file recordings listener asset
    ]

abbrev with_key : Option AudioAsset → List Text → List Text
with_key none keys = keys
with_key (some asset) keys = asset.object_key ∷ keys

unfoldable pub keys_of_calls : List Uuid → List Call → List Text
keys_of_calls [] calls = []
keys_of_calls (id ∷ ids) calls =
    with_key (and_then (find (has_id id) calls) (λ (call : Call). call.audio))
      (keys_of_calls ids calls)

unfoldable pub session_keys : ConversationSession → List Call → List Text
unfolding keys_of_calls
session_keys session calls =
    if is_empty session.audio_keys then keys_of_calls session.call_ids calls else session.audio_keys

abbrev with_file : Option Bytes → List Bytes → List Bytes
with_file none files = files
with_file (some bytes) files = bytes ∷ files

-- The files that can be resolved and read, in order.
unfoldable pub read_keys : Recordings → List Text → List Bytes
read_keys recordings [] = []
read_keys recordings (key ∷ keys) =
    with_file (and_then (resolve_audio_object_key recordings.root key) recordings.read)
      (read_keys recordings keys)

abbrev merged : Option Bytes → Sent
merged none = not_found
merged (some bytes) = whole (codes "audio/wav") bytes

unfoldable pub conversation_audio : Recordings → Listener → Uuid → AppState → Sent
unfolding may_listen session_keys read_keys
conversation_audio recordings listener id s =
    if not (may_listen recordings listener)
    then unauthorized
    else elim (find (session_has_id id) s.conversation_sessions) [
      | none ↦ not_found
      | some session ↦ merged (merge_wavs (read_keys recordings (session_keys session s.calls)))
    ]
