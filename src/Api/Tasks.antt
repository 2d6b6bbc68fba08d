-- ===== src/Api/Tasks.antt =====
-- The handlers of apps/control-plane/src/api.rs for the AI tasks: retry_call_enrichment,
-- save_ai_tasks and run_ai_task.
pub mod Retried
use trunk_scope.Common.{
  ◌-◌, Bool, true, false, not, ◌&&◌, ◌||◌, none, some, List, [], ◌∷◌, map, reverse, arith, ◌==◌,
  if◌then◌else◌, unwrap_or, take, any, find, retain, Text, codes, text_eq, Map, get, id_eq,
  text_key, Eq,
}
use trunk_scope.Common.Float.{F32, le32, f32_0}
use trunk_scope.Common.Json.{
  Members, float, boolean, number, string, array, object, end, done, member,
}
use trunk_scope.Domain.{Uuid, Call}
use trunk_scope.State.Profiles.{AiTaskSettings}
use trunk_scope.State.Settings.{AppSettings}
use trunk_scope.State.App.{AppState}
use trunk_scope.State.Calls.{has_id, set_call_enrichment}
use trunk_scope.Api.Policy.{
  Status, unauthorized, bad_request, not_found, conflict, unprocessable, ok, accepted,
  store_settings,
}
use trunk_scope.Enrichment.{Values, eligible}
use trunk_scope.Enrichment.Batch.{Provider, Batch, max_batch, request_of, result_of, task_settings}

abbrev pub is_listed : Text → List Text → Bool
is_listed task tasks = any (λ t. text_eq t task) tasks

abbrev pub retry_tasks : List Text
retry_tasks =
    codes "unit-extraction"
    ∷ codes "event-tagging"
    ∷ codes "address-normalization"
    ∷ codes "correlation"
    ∷ codes "map-placement"
    ∷ []

abbrev pub pending : Members
pending = member (codes "status") (string (codes "pending")) (
    member (codes "confidence") (number (float 0))
      (member (codes "evidence") (array end) (member (codes "retryRequested") (boolean true) done)))

-- The retry of a call that is there.
abbrev pub retried : Uuid → Text → Call → AppState → Status × AppState
retried id task call s =
    if eligible call
    then (accepted, set_call_enrichment id task (object pending) s)
    else (conflict, s)

unfoldable pub retry_call_enrichment : Bool → Uuid → Text → AppState → Status × AppState
unfolding text_eq
retry_call_enrichment false id task s = (unauthorized, s)
retry_call_enrichment true id task s =
    if not (is_listed task retry_tasks) then (bad_request, s) else elim (find (has_id id) s.calls) [
      | none ↦ (not_found, s)
      | some call ↦ retried id task call s
    ]

-- 1.0 as an `f32`.
abbrev f32_1 : F32
f32_1 = 0x3f80_0000

abbrev pub is_invalid_task : AiTaskSettings → Bool
is_invalid_task task =
    task.interval_minutes == 0
    || task.max_batch == 0
    || not (le32 f32_0 task.confidence_threshold && le32 task.confidence_threshold f32_1)

unfoldable pub save_ai_tasks : Bool → Map Text AiTaskSettings → AppState → Status × AppState
unfolding le32
save_ai_tasks false tasks s = (unauthorized, s)
save_ai_tasks true tasks s =
    if any (λ (entry : Text × AiTaskSettings). is_invalid_task entry.1) tasks
    then (bad_request, s)
    else (ok, store_settings (record s.settings { ai_tasks = tasks }) s)

abbrev runnable_tasks : List Text
runnable_tasks =
    codes "unit-extraction"
    ∷ codes "tone-classification"
    ∷ codes "event-tagging"
    ∷ codes "address-normalization"
    ∷ codes "correlation"
    ∷ codes "map-placement"
    ∷ codes "workload-metrics"
    ∷ []

-- One call of `run_ai_task`: the result is stored without the marks of a batch.
unfoldable pub run_call : Values → Provider → Text → AppSettings → Call → Batch → Batch
unfolding request_of result_of
run_call w p task settings call batch =
    let request = request_of w task settings call in
    let chosen = task_settings settings (get task settings.ai_tasks) in
    let answer = p.summarize batch.requests request in
    record {
      state =
          set_call_enrichment call.id task
            (object (result_of w chosen.summary_model (unwrap_or call.transcript []) answer))
            (p.others batch.requests batch.state);
      requests = request ∷ batch.requests;
    }

unfoldable pub run_calls : Values → Provider → Text → AppSettings → List Call → Batch → Batch
unfolding run_call
run_calls w p task settings [] batch = batch
run_calls w p task settings (call ∷ calls) batch =
    run_calls w p task settings calls (run_call w p task settings call batch)

unfoldable pub run_ai_task : Values → Provider → Bool → Text → Batch → Status × Batch
unfolding run_calls text_eq
run_ai_task w p false task batch = (unauthorized, batch)
run_ai_task w p true task batch =
    let settings = batch.state.settings in
    let chosen =
      take (max_batch (get task settings.ai_tasks)) (retain eligible (reverse batch.state.calls)) in
    if not (is_listed task runnable_tasks)
    then (bad_request, batch)
    else if text_eq task (codes "tone-classification")
    then (unprocessable, batch)
    else (ok, run_calls w p task settings chosen batch)
