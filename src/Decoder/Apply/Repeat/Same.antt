-- ===== src/Decoder/Apply/Repeat/Same.antt =====
-- What storing a call leaves alone: upsert_call of apps/control-plane/src/state.rs.
use trunk_scope.Common.{◌≡◌, refl, ◌∙◌, inl, inr, Bool-cases, Option-cases, id_eq, text_key}
use trunk_scope.Domain.{Uuid, Call, CallEvent, is_clear}
use trunk_scope.State.App.{
  AppState, Command, persist, execute, send_event, write_document, save_call,
}
use trunk_scope.State.Sessions.{update_conversation_session}
use trunk_scope.State.Calls.{upsert_call, put_call}

-- The table of recordings, the marked calls and the AI queue are the same.
abbrev pub IsSame : AppState → AppState → Type 0
IsSame s t =
    (t.audio_alias ≡ s.audio_alias)
    × (t.enqueued_calls ≡ s.enqueued_calls)
    × (t.processing_queue ≡ s.processing_queue)

pub IsSame-trans : (s t u : AppState) → IsSame s t → IsSame t u → IsSame s u
IsSame-trans s t u (a, b, c) (d, e, f) = (d ∙ a, e ∙ b, f ∙ c)

persist-IsSame : (c : Command) (s : AppState) → IsSame s (persist c s)
unfolding persist
persist-IsSame c s = elim (Option-cases s.persistence) [
  | inl e ↦ (rw (e, persist) refl, rw (e, persist) refl, rw (e, persist) refl)
  | inr (sent, e) ↦ (rw (e, persist) refl, rw (e, persist) refl, rw (e, persist) refl)
]

update_conversation_session-IsSame :
    (fresh : Uuid) (call : Call) (s : AppState)
    → IsSame s (update_conversation_session fresh call s)
unfolding update_conversation_session write_document
update_conversation_session-IsSame fresh call s = elim (Bool-cases (is_clear call.encryption)) [
  | inl e ↦ rw e (refl, refl, refl)
  | inr e ↦ rw e (refl, refl, refl)
]

pub upsert_call-IsSame :
    (fresh : Uuid) (call : Call) (event : CallEvent) (s : AppState)
    → IsSame s (upsert_call fresh call event s)
unfolding upsert_call execute send_event
upsert_call-IsSame fresh call event s =
    IsSame-trans s
      (update_conversation_session fresh call (record s { calls = put_call call s.calls }))
      (persist (save_call call)
        (update_conversation_session fresh call (record s { calls = put_call call s.calls })))
      (update_conversation_session-IsSame fresh call (record s { calls = put_call call s.calls }))
      (persist-IsSame (save_call call)
        (update_conversation_session fresh call (record s { calls = put_call call s.calls })))
