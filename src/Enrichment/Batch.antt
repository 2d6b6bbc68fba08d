-- ===== src/Enrichment/Batch.antt =====
-- The batches of apps/control-plane/src/enrichment.rs: run_batch, and the choice of the tasks that
-- are due. What the provider answers, and what other tasks do to the state until it does, are
-- functions of the requests sent before, the latest first.
use trunk_scope.Common.{
  ℕ, ◌+◌, ◌%◌, max, Bool, not, ◌&&◌, ◌||◌, Option, none, some, List, [], ◌∷◌, map, ◌==◌,
  if◌then◌else◌, unwrap_or, map_some, take, retain, Text, codes, text_eq, is_empty, Map, get, id_eq,
  text_key,
}
use trunk_scope.Common.Json.{
  Members, null, number, pos_int, string, object, done, member, put_member,
}
use trunk_scope.Domain.{Call}
use trunk_scope.State.Profiles.{AiTaskSettings}
use trunk_scope.State.Settings.{AppSettings}
use trunk_scope.State.App.{AppState}
use trunk_scope.State.Calls.{set_call_enrichment}
use trunk_scope.Enrichment.{
  Values, task_prompt, eligible, validated_result, transcript_hash, already_processed,
}

pub record Request : Type 0 where
  pub settings : AppSettings
  pub transcript : Text
  pub prompt : Text

pub data Answer : Type 0 where
  text : Text → Answer
  error : Text → Answer
  timeout : Answer

pub record Provider : Type 0 where
  pub summarize : List Request → Request → Answer
  pub others : List Request → AppState → AppState

pub record Batch : Type 0 where
  pub state : AppState
  pub requests : List Request

-- The tasks that are due at a minute.
abbrev is_due : ℕ → AiTaskSettings → Bool
is_due minute task = task.enabled && minute % max task.interval_minutes 1 == 0

unfoldable pub due_tasks : ℕ → Map Text AiTaskSettings → List Text
due_tasks minute tasks =
    map (λ (entry : Text × AiTaskSettings). entry.0)
      (retain (λ (entry : Text × AiTaskSettings). is_due minute entry.1) tasks)

abbrev unless_empty : Text → Text → Text
unless_empty given default = if is_empty given then default else given

unfoldable pub task_settings : AppSettings → Option AiTaskSettings → AppSettings
task_settings settings none = settings
task_settings settings (some config) = record settings {
  summary_provider = unless_empty config.provider settings.summary_provider;
  summary_model = unless_empty config.model settings.summary_model;
}

abbrev custom_prompt : Option AiTaskSettings → Option Text
custom_prompt = map_some (λ (config : AiTaskSettings). config.system_prompt)

abbrev pub prompt_version : Option AiTaskSettings → ℕ
prompt_version config = unwrap_or (map_some (λ (c : AiTaskSettings). c.prompt_version) config) 1

unfoldable pub task_signature : Values → Text → AppSettings → Option AiTaskSettings → ℕ
unfolding task_settings
task_signature w task settings config =
    let chosen = task_settings settings config in
    w.hash_task chosen.summary_provider chosen.summary_url chosen.summary_model
      (task_prompt w task (custom_prompt config) []) (prompt_version config)

abbrev pub max_batch : Option AiTaskSettings → ℕ
max_batch config = unwrap_or (map_some (λ (c : AiTaskSettings). max c.max_batch 1) config) 32

-- The calls that a task takes up.
unfoldable pub chosen_calls : Values → Text → AppSettings → List Call → List Call
chosen_calls w task settings calls =
    let config = get task settings.ai_tasks in
    let signature = task_signature w task settings config in
    take (max_batch config)
      (retain (λ call. eligible call && not (already_processed w call task signature)) calls)

abbrev pub skipped : Members
skipped = member (codes "status") (string (codes "skipped")) (
    member (codes "type") (string (codes "unknown")) (
      member (codes "confidence") null (
        member (codes "reason")
          (string (
            codes
              "Audio tone analysis is not available; transcript text cannot identify dispatch tones."))
          done)))

abbrev failed : Text → Members
failed cause =
    member (codes "status") (string (codes "failed")) (member (codes "error") (string cause) done)

unfoldable pub result_of : Values → Text → Text → Answer → Members
result_of w model transcript (text raw) = validated_result w raw model transcript
result_of w model transcript (error cause) = failed cause
result_of w model transcript timeout = failed (codes "provider-timeout")

-- The three members that say what the result was made from.
unfoldable pub stamped : ℕ → ℕ → ℕ → Members → Members
stamped signature hash version result =
    put_member (codes "promptVersion") (number (pos_int version)) (
      put_member (codes "transcriptHash") (number (pos_int hash))
        (put_member (codes "configurationHash") (number (pos_int signature)) result))

unfoldable pub request_of : Values → Text → AppSettings → Call → Request
request_of w task settings call =
    let config = get task settings.ai_tasks in
    let transcript = unwrap_or call.transcript [] in
    record {
      settings = task_settings settings config;
      transcript = transcript;
      prompt = task_prompt w task (custom_prompt config) transcript;
    }

unfoldable pub stamped_result : Values → Text → AppSettings → Call → Answer → Members
unfolding stamped
stamped_result w task settings call answer =
    let config = get task settings.ai_tasks in
    let transcript = unwrap_or call.transcript [] in
    stamped (task_signature w task settings config) (transcript_hash w transcript)
      (prompt_version config)
      (result_of w (task_settings settings config).summary_model transcript answer)

-- One turn of the loop over the calls.
unfoldable pub ask_call : Values → Provider → Text → AppSettings → Call → Batch → Batch
ask_call w p task settings call batch =
    let request = request_of w task settings call in
    let answer = p.summarize batch.requests request in
    record {
      state =
          set_call_enrichment call.id task (object (stamped_result w task settings call answer))
            (p.others batch.requests batch.state);
      requests = request ∷ batch.requests;
    }

unfoldable pub enrich_one : Values → Provider → Text → AppSettings → Call → Batch → Batch
unfolding ask_call
enrich_one w p task settings call batch =
    if text_eq task (codes "tone-classification")
    then record batch { state = set_call_enrichment call.id task (object skipped) batch.state }
    else ask_call w p task settings call batch

unfoldable pub enrich_calls : Values → Provider → Text → AppSettings → List Call → Batch → Batch
unfolding enrich_one
enrich_calls w p task settings [] batch = batch
enrich_calls w p task settings (call ∷ calls) batch =
    enrich_calls w p task settings calls (enrich_one w p task settings call batch)

abbrev pub is_passed_over : Text → Bool
is_passed_over task =
    text_eq task (codes "workload-metrics") || text_eq task (codes "transcription")

unfoldable pub run_task : Values → Provider → AppSettings → List Call → Text → Batch → Batch
unfolding enrich_calls chosen_calls
run_task w p settings calls task batch =
    if is_passed_over task
    then batch
    else enrich_calls w p task settings (chosen_calls w task settings calls) batch

unfoldable pub run_tasks : Values → Provider → AppSettings → List Call → List Text → Batch → Batch
unfolding run_task
run_tasks w p settings calls [] batch = batch
run_tasks w p settings calls (task ∷ due) batch =
    run_tasks w p settings calls due (run_task w p settings calls task batch)

unfoldable pub run_batch : Values → Provider → List Text → Batch → Batch
unfolding run_tasks
run_batch w p due batch =
    let settings = batch.state.settings in
    if settings.ai_enabled then run_tasks w p settings batch.state.calls due batch else batch

-- One tick of the timer: the minute counts in a `u32`.
unfoldable pub tick : Values → Provider → ℕ × Batch → ℕ × Batch
unfolding run_batch due_tasks
tick w p (minute, batch) =
    let next = (minute + 1) % 4294967296 in
    let due = due_tasks next batch.state.settings.ai_tasks in
    (next, if is_empty due then batch else run_batch w p due batch)
