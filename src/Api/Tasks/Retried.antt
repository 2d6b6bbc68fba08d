-- ===== src/Api/Tasks/Retried.antt =====
-- What follows a retry that retry_call_enrichment of apps/control-plane/src/api.rs accepts.
use trunk_scope.Common.{
  ℕ, ◌≡◌, refl, ◌∙◌, inl, inr, true, false, some, Bool-cases, find, Text, text_eq, text_eq_refl,
  id_eq, text_key,
}
use trunk_scope.Common.Json.{Json, object, find_member, find_member-put_member}
use trunk_scope.Domain.{Uuid, Call}
use trunk_scope.State.App.{AppState}
use trunk_scope.State.Calls.{has_id, members_of}
use trunk_scope.Api.Policy.{accepted}
use trunk_scope.Api.Tasks.{pending, is_listed, retry_tasks, retry_call_enrichment}
use trunk_scope.Enrichment.{Values, eligible, already_processed}
use trunk_scope.Enrichment.Stamps.{stored_with, find-set_call_enrichment}

-- A call that is marked as pending is taken up again.
already_processed-pending :
    (w : Values) (call : Call) (task : Text) (signature : ℕ)
    → already_processed w (stored_with task (object pending) call) task signature ≡ false
unfolding already_processed find_member text_eq
already_processed-pending w call task signature =
    rw (find_member-put_member task task (object pending) (members_of call.enrichment))
      (rw (text_eq_refl task) refl)

eligible-stored_with :
    (task : Text) (result : Json) (call : Call)
    → eligible (stored_with task result call) ≡ eligible call
unfolding eligible
eligible-stored_with task result call = refl

-- An accepted retry leaves the call, as it is stored, eligible and not processed under any
-- configuration of the task: the result that it had no longer keeps a batch from taking it up.
pub retry_call_enrichment-again :
    (w : Values) (id : Uuid) (task : Text) (s : AppState) (call : Call)
    → find (has_id id) s.calls ≡ some call
    → (retry_call_enrichment true id task s).0 ≡ accepted
    → (after : Call) × (find (has_id id) (retry_call_enrichment true id task s).1.calls
        ≡ some after)
      × (eligible after ≡ true)
      × ((signature : ℕ) → already_processed w after task signature ≡ false)
unfolding retry_call_enrichment
retry_call_enrichment-again w id task s call e = elim (Bool-cases (is_listed task retry_tasks)) [
  | inl k ↦ elim (Bool-cases (eligible call)) [
    | inl m ↦
        rw (k, e, m, retry_call_enrichment)
          (λ a. (
            stored_with task (object pending) call,
            find-set_call_enrichment id task (object pending) s call e,
            eligible-stored_with task (object pending) call ∙ m,
            already_processed-pending w call task,
          ))
    | inr m ↦ rw (k, e, m, retry_call_enrichment) (λ a. cc)
  ]
  | inr k ↦ rw (k, retry_call_enrichment) (λ a. cc)
]
