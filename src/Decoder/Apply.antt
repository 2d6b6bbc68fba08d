-- ===== src/Decoder/Apply.antt =====
-- apply_status, the stale sweep and the status socket of apps/control-plane/src/decoder.rs.
pub mod Sweep
pub mod Repeat
use trunk_scope.Common.{
  ℕ, ◌+◌, Bool, true, false, ◌&&◌, ◌||◌, Option, none, some, List, [], ◌∷◌, map, arith, ltb, ◌==◌,
  if◌then◌else◌, is_some_and, is_some, unwrap_or, or_else, filter_some, and_then, find, retain,
  update_first, Text, codes, to_ascii_lowercase, eq_ignore_ascii_case, contains, insert, remove,
  id_eq, text_key, Eq,
}
use trunk_scope.Common.Float.{f32_0, f32_neg_200, lt32, is_finite}
use trunk_scope.Common.Clock.{Time, seconds}
use trunk_scope.Common.Json.{Json, get_key, as_str}
use trunk_scope.Domain.{Uuid, Call, started, ended, complete, is_active, Receiver, ReceiverHealth}
use trunk_scope.State.App.{AppState}
use trunk_scope.State.Calls.{upsert_call}
use trunk_scope.State.Pipeline.{mark_call_enqueued, enqueue_processing}
use trunk_scope.Decoder.Event.{
  DecoderCall, StatusEvent, call_start, call_end, other, Conversions, text_value,
}
use trunk_scope.Decoder.Convert.{Draws, convert_call}

abbrev update_front {ℓ} : {A : Type ℓ} → (A → A) → List A → List A
update_front f [] = []
update_front f (x ∷ xs) = f x ∷ xs

abbrev measured : Time → Call → Option ℕ → Receiver → Receiver
measured now call noise receiver =
    let health : ReceiverHealth = receiver.health in
    record receiver {
      health = record health {
        signal_dbfs = call.signal_dbfs;
        noise_dbfs =
            unwrap_or (filter_some (λ v. is_finite v && lt32 v f32_0) noise) health.noise_dbfs;
        updated_at = now;
      };
    }

module _ (x : Conversions) where
  unfoldable pub update_receiver_health : Time → Call → DecoderCall → AppState → AppState
  update_receiver_health now call source s =
      if lt32 f32_neg_200 call.signal_dbfs && lt32 call.signal_dbfs f32_0
      then record s {
        receivers =
            update_front (measured now call (x.parse_f32 (text_value x source.noise))) s.receivers;
      }
      else s

  abbrev enqueue_if : Call → AppState × Bool → AppState
  enqueue_if call (s, true) = enqueue_processing call s
  enqueue_if call (s, false) = s

  -- The branch of an ended call, and that of a started one.
  unfoldable pub end_call : Draws → Time → DecoderCall → Call → AppState → AppState
  unfolding remove
  end_call draws now source call s =
      let measured = update_receiver_health now call source s in
      let untracked = record measured {
        decoder_active_calls = remove call.id measured.decoder_active_calls;
      } in
      let stored = upsert_call draws.for_session call (ended call) untracked in
      enqueue_if call (mark_call_enqueued call.id stored)

  unfoldable pub start_call : Draws → Time → DecoderCall → Call → AppState → AppState
  unfolding insert
  start_call draws now source call s =
      let measured = update_receiver_health now call source s in
      let tracked = record measured {
        decoder_active_calls = insert call.id now measured.decoder_active_calls;
      } in
      upsert_call draws.for_session call (started call) tracked

  abbrev apply_converted : Draws → Time → DecoderCall → Bool → AppState → AppState
  apply_converted draws now source is_end s = elim (convert_call x draws now source is_end s) [
    | none ↦ s
    | some (call, t) ↦
        if is_end then end_call draws now source call t else start_call draws now source call t
  ]

  unfoldable pub apply_status : Draws → Time → StatusEvent → AppState → AppState
  unfolding end_call start_call
  apply_status draws now other s = s
  apply_status draws now (call_start call) s = apply_converted draws now call false s
  apply_status draws now (call_end call) s = apply_converted draws now call true s

  -- From what the JSON parser makes of the payload.
  unfoldable pub ingest_status_payload :
      Draws → Time → Option StatusEvent → AppState → AppState × Bool
  unfolding apply_status
  ingest_status_payload draws now none s = (s, false)
  ingest_status_payload draws now (some event) s =
      (apply_status draws now event (record s { decoder_last_event = some now }), true)

abbrev pub is_stale : Time → Uuid × Time → Bool
is_stale now entry = ltb (entry.1 + seconds 300) now

abbrev pub is_open : Uuid → Call → Bool
is_open id call = call.id == id && is_active call.state

abbrev close : Time → Call → Call
close now call = record call { state = complete; ended_at = some now }

-- One round of the sweep; `fresh` is the session that the call may open.
unfoldable pub finalize_stale : Uuid → Time → Uuid → AppState → AppState
unfolding remove
finalize_stale fresh now id s =
    let t : AppState = elim (find (is_open id) s.calls) [
      | none ↦ s
      | some call ↦
          upsert_call fresh (close now call) (ended (close now call))
            (record s { calls = update_first (is_open id) (close now) s.calls })
    ] in
    record t { decoder_active_calls = remove id t.decoder_active_calls }

unfoldable pub finalize_all : (Uuid → Uuid) → Time → List Uuid → AppState → AppState
unfolding finalize_stale
finalize_all fresh now [] s = s
finalize_all fresh now (id ∷ ids) s =
    finalize_all fresh now ids (finalize_stale (fresh id) now id s)

unfoldable pub sweep_stale_calls : (Uuid → Uuid) → Time → AppState → AppState
unfolding finalize_all
sweep_stale_calls fresh now s =
    finalize_all fresh now
      (map (λ (entry : Uuid × Time). entry.0) (retain (is_stale now) s.decoder_active_calls)) s

-- `record_control_lock`: by the parsed payload, or by its text where the fields do not tell.
abbrev says_control : Json → Bool
says_control value = is_some_and (and_then (get_key (codes "type") value) as_str) λ field.
    contains (codes "control") field
    || eq_ignore_ascii_case field (codes "controlchannel")
    || eq_ignore_ascii_case field (codes "control_channel")

abbrev names_channel : Json → Bool
names_channel value =
    is_some
      (or_else (get_key (codes "controlChannel") value) (get_key (codes "control_channel") value))

abbrev status_control : Json → Bool
status_control value =
    is_some_and (and_then (get_key (codes "status") value) as_str) (contains (codes "control"))

abbrev text_control : Text → Bool
text_control value =
    (contains (codes "control") value
      && (contains (codes "lock") value || contains (codes "channel") value))
    || contains (codes "controlchannel") value

unfoldable pub is_control_lock : Option Json → Text → Bool
is_control_lock parsed payload =
    is_some_and parsed (λ v. says_control v || names_channel v || status_control v)
    || text_control (to_ascii_lowercase payload)

unfoldable pub record_control_lock : Time → Option Json → Text → AppState → AppState
unfolding is_control_lock
record_control_lock now parsed payload s =
    if is_control_lock parsed payload then record s { decoder_control_lock = some now } else s

-- What the socket delivers, a text with what the JSON parser makes of it.
pub data Message : Type 0 where
  text_message : Text → Option Json → Option StatusEvent → Message
  close_message other_message failed_message : Message

module _ (x : Conversions) (draws : Time → Draws) where
  abbrev apply_parsed : Time → Option StatusEvent → AppState → AppState
  apply_parsed now none s = s
  apply_parsed now (some event) s = apply_status x (draws now) now event s

  -- The loop of `consume_status`, over the messages until the socket closes.
  unfoldable pub consume : List (Time × Message) → AppState → AppState
  unfolding apply_status record_control_lock
  consume [] s = s
  consume ((now, text_message payload parsed event) ∷ messages) s = consume messages (
      apply_parsed now event
        (record_control_lock now parsed payload (record s { decoder_last_event = some now })))
  consume ((now, other_message) ∷ messages) s =
      consume messages (record s { decoder_last_event = some now })
  consume ((now, _) ∷ messages) s = record s { decoder_last_event = some now }

  unfoldable pub consume_status : List (Time × Message) → AppState → AppState
  unfolding consume
  consume_status messages s =
      let t = consume messages (record s { decoder_connected = true }) in
      record t { decoder_connected = false }
