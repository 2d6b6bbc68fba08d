-- ===== src/Enrichment/Stamps.antt =====
-- What a stored result of apps/control-plane/src/enrichment.rs says of its call: whether the next
-- batch takes the call up again.
use trunk_scope.Common.{
  ℕ, ◌≡◌, refl, ap, some, [], arith, ==_refl, unwrap_or, map_some, find, update_first, Text, codes,
  text_eq, text_eq_refl, get, id_eq, text_key,
}
use trunk_scope.Common.Json.{
  Json, Members, object, number, pos_int, get_key, put_member, find_member, find_member-put_member,
}
use trunk_scope.Domain.{Call, Uuid}
use trunk_scope.State.App.{AppState, persist, execute, send_event}
use trunk_scope.State.Settings.{AppSettings}
use trunk_scope.State.Calls.{has_id, members_of, set_call_enrichment}
use trunk_scope.State.Calls.Store.{find-update_first}
use trunk_scope.Enrichment.{Values, is_complete, already_processed, transcript_hash}
use trunk_scope.Enrichment.Batch.{
  Answer, stamped, stamped_result, result_of, task_signature, task_settings, prompt_version,
}

-- The members that `stamped` adds are found, and the status as before.
find_member-stamped :
    (signature hash version : ℕ) (result : Members)
    → (find_member (codes "status") (stamped signature hash version result)
        ≡ find_member (codes "status") result)
      × (find_member (codes "configurationHash") (stamped signature hash version result)
          ≡ some (number (pos_int signature)))
      × (find_member (codes "transcriptHash") (stamped signature hash version result)
          ≡ some (number (pos_int hash)))
unfolding stamped text_eq
find_member-stamped signature hash version result = (
  rw (find_member-put_member, find_member-put_member, find_member-put_member) refl,
  rw (find_member-put_member, find_member-put_member, find_member-put_member) refl,
  rw (find_member-put_member, find_member-put_member) refl,
)

already_processed-stamped :
    (w : Values) (call : Call) (task : Text) (signature hash version : ℕ) (result : Members)
    → get_key task call.enrichment ≡ some (object (stamped signature hash version result))
    → hash ≡ transcript_hash w (unwrap_or call.transcript [])
    → already_processed w call task signature ≡ is_complete result
unfolding already_processed
already_processed-stamped w call task signature hash version result e h =
    let (status, configuration, transcript) = find_member-stamped signature hash version result in
    rw (e, already_processed)
      (rw status (
        rw configuration (
          rw transcript (
            rw h (
              rw (==_refl signature) (
                rw (==_refl (transcript_hash w (unwrap_or call.transcript []))) (ground arith)))))))

abbrev pub stored_with : Text → Json → Call → Call
stored_with task result call = record call {
  enrichment = object (put_member task result (members_of call.enrichment));
}

set_call_enrichment-calls :
    (id : Uuid) (task : Text) (result : Json) (s : AppState) (stored : Call)
    → find (has_id id) s.calls ≡ some stored
    → (set_call_enrichment id task result s).calls
      ≡ update_first (has_id id) (stored_with task result) s.calls
unfolding set_call_enrichment persist execute send_event
set_call_enrichment-calls id task result s stored e = rw (e, set_call_enrichment) (ground arith)

pub find-set_call_enrichment :
    (id : Uuid) (task : Text) (result : Json) (s : AppState) (stored : Call)
    → find (has_id id) s.calls ≡ some stored
    → find (has_id id) (set_call_enrichment id task result s).calls
      ≡ some (stored_with task result stored)
find-set_call_enrichment id task result s stored e =
    rw (set_call_enrichment-calls id task result s stored e) (
      rw (find-update_first id (stored_with task result) id s.calls (λ c k. refl))
        (rw e (rw (==_refl id) refl)))

-- Once the result that a batch makes of an answer is stored, with the batch's stamps, the call counts
-- as processed under the configuration of that batch if and only if the result is complete: the
-- answer of the provider, checked. This holds where the call is stored with the transcript that
-- the request had.
pub set_call_enrichment-already_processed :
    (w : Values) (task : Text) (settings : AppSettings) (call stored : Call) (answer : Answer)
    (s : AppState)
    → find (has_id call.id) s.calls ≡ some stored
    → stored.transcript ≡ call.transcript
    → let config = get task settings.ai_tasks in
      let result = object (stamped_result w task settings call answer) in
      map_some
        (λ c. already_processed w c task (task_signature w task settings config))
        (find (has_id call.id) (set_call_enrichment call.id task result s).calls)
      ≡ some (
          is_complete (
            result_of w
              (task_settings settings config).summary_model
              (unwrap_or call.transcript [])
              answer))
unfolding stamped_result
set_call_enrichment-already_processed w task settings call stored answer s e t =
    let config = get task settings.ai_tasks in
    let transcript = unwrap_or call.transcript [] in
    let signature = task_signature w task settings config in
    let result = result_of w (task_settings settings config).summary_model transcript answer in
    let found = stored_with task (object (stamped_result w task settings call answer)) stored in
    rw
      (find-set_call_enrichment call.id task (object (stamped_result w task settings call answer)) s
        stored e)
      (ap some (
        already_processed-stamped w found task signature (transcript_hash w transcript)
          (prompt_version config) result
          (rw (find_member-put_member task task) (rw (text_eq_refl task) refl)) (rw t refl)))
