-- ===== src/Decoder/Apply/Repeat.antt =====
-- The same recording's end delivered twice to apply_status of apps/control-plane/src/decoder.rs.
mod Same
use trunk_scope.Common.{
  ℕ, ◌<◌, ◌≡◌, refl, sym, ap, ◌∙◌, inl, inr, Bool, true, false, ◌&&◌, Option, none, some, List, ◌∷◌,
  arith, leb, ==_refl, Bool-cases, Option-cases, and_then, length, Text, remove, id_eq, text_key,
}
use mathlib.Core.Path.{subst}
use trunk_scope.Common.Clock.{Time}
use trunk_scope.Domain.{Uuid, Call, CallEvent, ended, is_clear}
use trunk_scope.Common.Float.{f32_0, f32_neg_200, lt32}
use trunk_scope.State.App.{
  AppState, Command, persist, execute, send_event, write_document, save_call,
}
use trunk_scope.State.Sessions.{update_conversation_session}
use trunk_scope.State.Calls.{upsert_call, put_call}
use trunk_scope.State.Pipeline.{
  has, mark_call_enqueued, enqueue_processing, remember_audio, resolve_call_for_audio,
}
use trunk_scope.Decoder.Event.{DecoderCall, call_end, Conversions, text_value}
use trunk_scope.Decoder.Convert.{Draws, build_call, convert_call, audio_path, identify}
use trunk_scope.Decoder.Convert.Identity.{convert_call-build_call, convert_call-same_recording}
use trunk_scope.Decoder.Apply.{
  update_receiver_health, end_call, apply_status, apply_converted, enqueue_if,
}
use trunk_scope.Decoder.Apply.Repeat.Same.{IsSame, IsSame-trans, upsert_call-IsSame}

module _ (x : Conversions) where
  update_receiver_health-IsSame :
      (now : Time) (call : Call) (source : DecoderCall) (s : AppState)
      → IsSame s (update_receiver_health x now call source s)
  unfolding update_receiver_health
  update_receiver_health-IsSame now call source s =
      elim (Bool-cases (lt32 f32_neg_200 call.signal_dbfs && lt32 call.signal_dbfs f32_0)) [
        | inl e ↦ rw e (refl, refl, refl)
        | inr e ↦ rw e (refl, refl, refl)
      ]

  -- The state in which the ended call is marked.
  stored : Draws → Time → DecoderCall → Call → AppState → AppState
  stored draws now source call s =
      let measured = update_receiver_health x now call source s in
      upsert_call draws.for_session call (ended call)
        (record measured { decoder_active_calls = remove call.id measured.decoder_active_calls })

  stored-IsSame :
      (draws : Draws) (now : Time) (source : DecoderCall) (call : Call) (s : AppState)
      → IsSame s (stored draws now source call s)
  unfolding stored
  stored-IsSame draws now source call s =
      let measured = update_receiver_health x now call source s in
      let untracked = record measured {
        decoder_active_calls = remove call.id measured.decoder_active_calls;
      } in
      IsSame-trans s untracked (upsert_call draws.for_session call (ended call) untracked)
        (update_receiver_health-IsSame now call source s)
        (upsert_call-IsSame draws.for_session call (ended call) untracked)

  -- What the mark and the queue do for a call that was marked, and for any call.
  marked-again :
      (call : Call) (s : AppState)
      → length s.enqueued_calls < 10000
      → has call.id s.enqueued_calls ≡ true
      → (enqueue_if x call (mark_call_enqueued call.id s)).processing_queue ≡ s.processing_queue
  unfolding mark_call_enqueued
  marked-again call s h e = rw (not_full (length s.enqueued_calls) h) (rw e refl)
    where
      not_full : (n : ℕ) → n < 10000 → leb 10000 n ≡ false
      not_full n h = ground arith

  queue-IsMarked :
      (call : Call) (s : AppState)
      → ((enqueue_processing call s).enqueued_calls ≡ s.enqueued_calls)
        × ((enqueue_processing call s).audio_alias ≡ s.audio_alias)
  unfolding enqueue_processing
  queue-IsMarked call s = elim (Bool-cases s.queue_open) [
    | inl e ↦ rw e (refl, refl)
    | inr e ↦ rw e (refl, refl)
  ]

  marked-first :
      (call : Call) (s : AppState)
      → length s.enqueued_calls < 9999
      → let t = enqueue_if x call (mark_call_enqueued call.id s) in
        (has call.id t.enqueued_calls ≡ true)
        × (length t.enqueued_calls < 10000)
        × (t.audio_alias ≡ s.audio_alias)
  unfolding mark_call_enqueued
  marked-first call s h = elim (Bool-cases (has call.id s.enqueued_calls)) [
    | inl e ↦ rw (not_full (length s.enqueued_calls) h) (rw e (e, omega (arith, h), refl))
    | inr e ↦ rw (not_full (length s.enqueued_calls) h) (
        rw e (
          let marked = record s { enqueued_calls = call.id ∷ s.enqueued_calls } in
          let (kept, alias) = queue-IsMarked call marked in
          (rw kept (own call.id s.enqueued_calls), rw kept (omega (arith, h)), alias)))
  ]
    where
      not_full : (n : ℕ) → n < 9999 → leb 10000 n ≡ false
      not_full n h = ground arith

      own : (id : Uuid) (ids : List Uuid) → has id (id ∷ ids) ≡ true
      own id ids = ground (arith, ==_refl id)

  identify-IsSame :
      (path : Option Text) (source_id : Text) (fresh : Uuid) (s : AppState)
      → ((identify path source_id fresh s).1.enqueued_calls ≡ s.enqueued_calls)
        × ((identify path source_id fresh s).1.processing_queue ≡ s.processing_queue)
  unfolding identify
  identify-IsSame path source_id fresh s =
      elim (Option-cases (and_then path (λ p. resolve_call_for_audio p s))) [
        | inl e ↦ (rw (e, identify) refl, rw (e, identify) refl)
        | inr (id, e) ↦ (rw (e, identify) refl, rw (e, identify) refl)
      ]

  build_call-IsSame :
      (draws : Draws) (now : Time) (source : DecoderCall) (is_end : Bool) (g hz : ℕ) (s : AppState)
      → ((build_call x draws now source is_end g hz s).1.enqueued_calls ≡ s.enqueued_calls)
        × ((build_call x draws now source is_end g hz s).1.processing_queue ≡ s.processing_queue)
  unfolding build_call remember_audio
  build_call-IsSame draws now source is_end g hz s =
      elim (Option-cases (audio_path (text_value x source.filename))) [
        | inl e ↦ rw (e, build_call) (identify-IsSame none _ _ _)
        | inr (path, e) ↦ rw (e, build_call) (identify-IsSame (some path) _ _ _)
      ]

  convert_call-IsSame :
      (draws : Draws) (now : Time) (source : DecoderCall) (is_end : Bool) (s : AppState)
      (call : Call) (t : AppState)
      → convert_call x draws now source is_end s ≡ some (call, t)
      → (t.enqueued_calls ≡ s.enqueued_calls) × (t.processing_queue ≡ s.processing_queue)
  convert_call-IsSame draws now source is_end s call t h =
      let (g, hz, e) = convert_call-build_call x draws now source is_end s (call, t) h in
      subst
        (λ (r : Call × AppState).
          (r.1.enqueued_calls ≡ s.enqueued_calls) × (r.1.processing_queue ≡ s.processing_queue))
        e (build_call-IsSame draws now source is_end g hz s)

  apply_status-some :
      (draws : Draws) (now : Time) (source : DecoderCall) (s : AppState) (call : Call)
      (t : AppState)
      → convert_call x draws now source true s ≡ some (call, t)
      → apply_status x draws now (call_end source) s
        ≡ enqueue_if x call (mark_call_enqueued call.id (stored draws now source call t))
  unfolding apply_status end_call stored
  apply_status-some draws now source s call t h = rw (h, apply_converted) refl

  apply_status-none :
      (draws : Draws) (now : Time) (source : DecoderCall) (s : AppState)
      → convert_call x draws now source true s ≡ none
      → apply_status x draws now (call_end source) s ≡ s
  unfolding apply_status
  apply_status-none draws now source s h = rw (h, apply_converted) refl

  -- What holds after the first end.
  IsMarked : Call → AppState → AppState → Type 0
  IsMarked call t s =
      (has call.id s.enqueued_calls ≡ true)
      × (length s.enqueued_calls < 10000)
      × (s.audio_alias ≡ t.audio_alias)

  apply_status-IsMarked :
      (draws : Draws) (now : Time) (source : DecoderCall) (s : AppState) (call : Call)
      (t : AppState)
      → convert_call x draws now source true s ≡ some (call, t)
      → length s.enqueued_calls < 9999
      → IsMarked call t (apply_status x draws now (call_end source) s)
  unfolding IsMarked
  apply_status-IsMarked draws now source s call t h few =
      let (alias, marks, _) = stored-IsSame draws now source call t in
      let same = marks ∙ (convert_call-IsSame draws now source true s call t h).0 in
      let (own, size, kept) =
        marked-first call (stored draws now source call t)
          (subst (λ ids. length ids < 9999) (sym same) few) in
      subst (IsMarked call t) (sym (apply_status-some draws now source s call t h))
        (own, size, kept ∙ alias)

  -- A second end of a recording's call gives the AI queue nothing: after one event that ended a call,
  -- another end about the same file, under any identifier, leaves the queue as it is. What happens in
  -- between is free as long as the calls marked after the first end stay marked and the table of
  -- recordings is as the first end left it; fewer than 9,999 calls are marked before the first end,
  -- and fewer than 10,000 before the second.
  pub apply_status-repeat :
      (draws draws' : Draws) (now now' : Time) (first second : DecoderCall) (s t : AppState)
      (a : Call) (path : Text) (between : AppState)
      → audio_path (text_value x first.filename) ≡ some path
      → audio_path (text_value x second.filename) ≡ some path
      → convert_call x draws now first true s ≡ some (a, t)
      → length s.enqueued_calls < 9999
      → ((id : Uuid)
          → has id (apply_status x draws now (call_end first) s).enqueued_calls ≡ true
          → has id between.enqueued_calls ≡ true)
      → length between.enqueued_calls < 10000
      → between.audio_alias ≡ (apply_status x draws now (call_end first) s).audio_alias
      → (apply_status x draws' now' (call_end second) between).processing_queue
        ≡ between.processing_queue
  unfolding IsMarked
  apply_status-repeat draws draws' now now' first second s t a path between file file' h few keeps
        size table =
      let (own, _, alias) = apply_status-IsMarked draws now first s a t h few in
      again (keeps a.id own) (table ∙ alias)
    where
      again :
          has a.id between.enqueued_calls ≡ true
          → between.audio_alias ≡ t.audio_alias
          → (apply_status x draws' now' (call_end second) between).processing_queue
            ≡ between.processing_queue
      again own alias = elim (Option-cases (convert_call x draws' now' second true between)) [
        | inl e ↦
            ap (λ (u : AppState). u.processing_queue)
              (apply_status-none draws' now' second between e)
        | inr ((b, u), e) ↦
            let id =
              convert_call-same_recording x draws draws' now now' first second true true s t between
                u a b path h alias e file file' in
            let (_, marks, queue) = stored-IsSame draws' now' second b u in
            let (kept, unqueued) = convert_call-IsSame draws' now' second true between b u e in
            ap (λ (v : AppState). v.processing_queue)
              (apply_status-some draws' now' second between b u e)
            ∙ (marked-again b (stored draws' now' second b u)
                  (subst (λ ids. length ids < 10000) (sym (marks ∙ kept)) size)
                  (subst (λ ids. has b.id ids ≡ true) (sym (marks ∙ kept))
                    (subst (λ i. has i between.enqueued_calls ≡ true) (sym id) own))
                ∙ (queue ∙ unqueued))
      ]
