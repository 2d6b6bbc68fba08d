-- ===== src/Enrichment/Sent.antt =====
-- What a batch of apps/control-plane/src/enrichment.rs sends to the provider.
use trunk_scope.Common.{
  ℕ, ◌+◌, ◌≤◌, ◌≡◌, refl, ◌⊎◌, inl, inr, Bool, true, ◌&&◌, List, [], ◌∷◌, arith, Bool-cases,
  if_either, length, retain, All, All-weaken, length-take-le, All-take, Text, codes, text_eq, get,
  id_eq, text_key,
}
use trunk_scope.Domain.{Call}
use trunk_scope.State.App.{AppState}
use trunk_scope.State.Settings.{AppSettings}
use trunk_scope.Enrichment.{Values, eligible}
use trunk_scope.Enrichment.Batch.{
  Provider, Batch, Request, request_of, chosen_calls, ask_call, enrich_one, enrich_calls, run_task,
  run_tasks, run_batch, max_batch, is_passed_over,
}

abbrev pub IsIn : Call → List Call → Type 0
IsIn call [] = ⊥
IsIn call (c ∷ calls) = (call ≡ c) ⊎ IsIn call calls

-- A request for a task about an eligible call of the list.
abbrev pub IsForEligible : Values → AppSettings → List Call → Request → Type 0
IsForEligible w settings calls request =
    (task : Text) × (call : Call) × IsIn call calls
    × (eligible call ≡ true)
    × (request ≡ request_of w task settings call)

abbrev IsChosen : List Call → Call → Type 0
IsChosen calls call = IsIn call calls × (eligible call ≡ true)

IsChosen-later :
    (c : Call) (calls found : List Call)
    → All (IsChosen calls) found
    → All (IsChosen (c ∷ calls)) found
IsChosen-later c calls = All-weaken (IsChosen calls) (IsChosen (c ∷ calls)) λ x (i, e). (inr i, e)

retain-IsChosen :
    (q : Call → Bool) (calls : List Call)
    → All (IsChosen calls) (retain (λ call. eligible call && q call) calls)
retain-IsChosen q [] = tt
retain-IsChosen q (c ∷ calls) = elim (Bool-cases (eligible c && q c)) [
  | inl e ↦ rw e ((inl refl, ground (arith, e)), IsChosen-later c calls _ (retain-IsChosen q calls))
  | inr e ↦ rw e (IsChosen-later c calls _ (retain-IsChosen q calls))
]

-- The batch sizes of the tasks together.
abbrev pub budget : AppSettings → List Text → ℕ
budget settings [] = 0
budget settings (task ∷ due) = max_batch (get task settings.ai_tasks) + budget settings due

module _ (w : Values) (p : Provider) (settings : AppSettings) (calls : List Call) where
  abbrev AllFor : List Request → Type 0
  AllFor = All (IsForEligible w settings calls)

  chosen_calls-IsChosen : (task : Text) → All (IsChosen calls) (chosen_calls w task settings calls)
  unfolding chosen_calls
  chosen_calls-IsChosen task = All-take (IsChosen calls) _ _ (retain-IsChosen _ calls)

  enrich_one-AllFor :
      (task : Text) (call : Call) (batch : Batch)
      → IsChosen calls call
      → AllFor batch.requests
      → AllFor (enrich_one w p task settings call batch).requests
  unfolding enrich_one ask_call
  enrich_one-AllFor task call batch (i, e) h =
      elim (Bool-cases (text_eq task (codes "tone-classification"))) [
        | inl k ↦ rw (k, enrich_one) h
        | inr k ↦ rw (k, enrich_one) ((task, call, i, e, refl), h)
      ]

  enrich_calls-AllFor :
      (task : Text) (chosen : List Call) (batch : Batch)
      → All (IsChosen calls) chosen
      → AllFor batch.requests
      → AllFor (enrich_calls w p task settings chosen batch).requests
  unfolding enrich_calls
  enrich_calls-AllFor task [] batch k h = h
  enrich_calls-AllFor task (call ∷ chosen) batch (k, ks) h =
      enrich_calls-AllFor task chosen (enrich_one w p task settings call batch) ks
        (enrich_one-AllFor task call batch k h)

  run_task-AllFor :
      (task : Text) (batch : Batch)
      → AllFor batch.requests
      → AllFor (run_task w p settings calls task batch).requests
  unfolding run_task
  run_task-AllFor task batch h = elim (Bool-cases (is_passed_over task)) [
    | inl e ↦ rw (e, run_task) h
    | inr e ↦
        rw (e, run_task)
          (enrich_calls-AllFor task (chosen_calls w task settings calls) batch
            (chosen_calls-IsChosen task) h)
  ]

  run_tasks-AllFor :
      (due : List Text) (batch : Batch)
      → AllFor batch.requests
      → AllFor (run_tasks w p settings calls due batch).requests
  unfolding run_tasks
  run_tasks-AllFor [] batch h = h
  run_tasks-AllFor (task ∷ due) batch h =
      run_tasks-AllFor due (run_task w p settings calls task batch) (run_task-AllFor task batch h)

  enrich_one-length :
      (task : Text) (call : Call) (batch : Batch)
      → length (enrich_one w p task settings call batch).requests ≤ 1 + length batch.requests
  unfolding enrich_one ask_call
  enrich_one-length task call batch = ground arith

  enrich_calls-length :
      (task : Text) (chosen : List Call) (batch : Batch)
      → length (enrich_calls w p task settings chosen batch).requests
        ≤ length chosen + length batch.requests
  unfolding enrich_calls
  enrich_calls-length task [] batch = omega arith
  enrich_calls-length task (call ∷ chosen) batch = omega (
    arith,
    enrich_one-length task call batch,
    enrich_calls-length task chosen (enrich_one w p task settings call batch),
  )

  chosen_calls-length :
      (task : Text)
      → length (chosen_calls w task settings calls) ≤ max_batch (get task settings.ai_tasks)
  unfolding chosen_calls
  chosen_calls-length task = length-take-le (max_batch (get task settings.ai_tasks)) _

  run_task-length :
      (task : Text) (batch : Batch)
      → length (run_task w p settings calls task batch).requests
        ≤ max_batch (get task settings.ai_tasks) + length batch.requests
  unfolding run_task
  run_task-length task batch = ground (
    arith,
    chosen_calls-length task,
    enrich_calls-length task (chosen_calls w task settings calls) batch,
  )

  run_tasks-length :
      (due : List Text) (batch : Batch)
      → length (run_tasks w p settings calls due batch).requests
        ≤ budget settings due + length batch.requests
  unfolding run_tasks
  run_tasks-length [] batch = omega arith
  run_tasks-length (task ∷ due) batch = omega (
    arith,
    run_task-length task batch,
    run_tasks-length due (run_task w p settings calls task batch),
  )

-- Every request of a batch is about an eligible call that was stored when the batch began, so one
-- that is clear, complete and transcribed, with its transcript and the prompt of a task; and there
-- are at most as many as the due tasks' batch sizes allow together.
pub run_batch-requests :
    (w : Values) (p : Provider) (due : List Text) (s : AppState)
    → let sent = (run_batch w p due (record { state = s; requests = [] })).requests in
      All (IsForEligible w s.settings s.calls) sent × (length sent ≤ budget s.settings due)
unfolding run_batch
run_batch-requests w p due s =
    let start : Batch = record { state = s; requests = [] } in
    if_either
      (λ batch.
        All (IsForEligible w s.settings s.calls) batch.requests
        × (length batch.requests ≤ budget s.settings due))
      s.settings.ai_enabled (run_tasks w p s.settings s.calls due start) start
      (
        run_tasks-AllFor w p s.settings s.calls due start tt,
        omega (arith, run_tasks-length w p s.settings s.calls due start),
      )
      (tt, omega arith)
