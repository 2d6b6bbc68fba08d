-- ===== src/Tests/State.antt =====
-- The theorems on the state of apps/control-plane/src/state.rs at concrete states.
use trunk_scope.Common.{
  ℕ, zero, suc, ◌<◌, ◌≡◌, refl, inr, true, false, none, some, List, [], ◌∷◌, arith, ◌==◌,
  if◌then◌else◌, length, any, find, codes, id_eq, text_key,
}
use trunk_scope.Common.Clock.{seconds}
use trunk_scope.Domain.{Uuid, Call, ended, IncidentLocation}
use trunk_scope.State.App.{upsert_row}
use trunk_scope.State.Sessions.{update_conversation_session, finalize_expired_sessions}
use trunk_scope.State.Sessions.Grouping.{
  is_joined, AllSettled, update_conversation_session-joined, finalize_expired_sessions-AllSettled,
}
use trunk_scope.State.Pipeline.{mark_call_enqueued}
use trunk_scope.State.Pipeline.Once.{mark_all, mark_call_enqueued-once}
use trunk_scope.State.Calls.{has_id, upsert_call, enrich_call}
use trunk_scope.State.Calls.Store.{IsStore, IsDistinct, upsert_call-IsStore, upsert_call-find}
use trunk_scope.State.Calls.Writers.{enrich_call-IsStore}
use trunk_scope.Tests.Samples.{sample_call, sample_state, sample_session}

sample_IsStore : IsStore sample_state.calls
sample_IsStore = ((refl, (refl, tt)), omega arith)

upsert_call-IsStore_example :
    IsStore
      (upsert_call 41
        (sample_call 4 (seconds 105))
        (ended (sample_call 4 (seconds 105)))
        sample_state).calls
upsert_call-IsStore_example =
    upsert_call-IsStore 41 (sample_call 4 (seconds 105)) (ended (sample_call 4 (seconds 105)))
      sample_state sample_IsStore

upsert_call-find_example :
    ((j : Uuid)
      → find
          (has_id j)
          (upsert_call 41
            (sample_call 4 (seconds 105))
            (ended (sample_call 4 (seconds 105)))
            sample_state).calls
        ≡ (if j == 4
            then some (sample_call 4 (seconds 105))
            else find (has_id j) sample_state.calls))
    × ((upsert_call 41
          (sample_call 4 (seconds 105))
          (ended (sample_call 4 (seconds 105)))
          sample_state).events
        ≡ ended (sample_call 4 (seconds 105)) ∷ [])
    × ((upsert_call 41
          (sample_call 4 (seconds 105))
          (ended (sample_call 4 (seconds 105)))
          sample_state).database
        ≡ upsert_row (sample_call 4 (seconds 105)) ∷ [])
upsert_call-find_example =
    upsert_call-find 41 (sample_call 4 (seconds 105)) (ended (sample_call 4 (seconds 105)))
      sample_state (inr (omega arith))

enrich_call-IsStore_example : IsStore (enrich_call 2 (codes "Engine 5") none sample_state).calls
enrich_call-IsStore_example =
    (enrich_call-IsStore 2 (codes "Engine 5") none sample_state sample_IsStore).1

abbrev sample_location : IncidentLocation
sample_location = record { label = codes "Main St"; latitude = 0; longitude = 0; confidence = 0 }

-- Calls with consecutive ids.
abbrev numbered : ℕ → ℕ → List Call
numbered from zero = []
numbered from (suc count) = sample_call from (seconds from) ∷ numbered (suc from) count

numbered-fresh : (j from count : ℕ) → j < from → any (has_id j) (numbered from count) ≡ false
numbered-fresh j from zero h = refl
numbered-fresh j from (suc count) h = ground (arith, numbered-fresh j (suc from) count)

numbered-IsDistinct : (from count : ℕ) → IsDistinct (numbered from count)
numbered-IsDistinct from zero = tt
numbered-IsDistinct from (suc count) =
    (numbered-fresh from (suc from) count (omega arith), numbered-IsDistinct (suc from) count)

length-numbered : (from count : ℕ) → length (numbered from count) ≡ count
length-numbered from zero = refl
length-numbered from (suc count) = omega (arith, length-numbered (suc from) count)

update_conversation_session-joined_example :
    any
      (is_joined 4)
      (update_conversation_session 41
        (sample_call 4 (seconds 105))
        sample_state).conversation_sessions
    ≡ true
update_conversation_session-joined_example =
    update_conversation_session-joined 41 (sample_call 4 (seconds 105)) sample_state refl
      (omega arith)

finalize_expired_sessions-AllSettled_example :
    AllSettled
      (seconds 130)
      (sample_session ∷ [])
      (finalize_expired_sessions (seconds 130) sample_state).conversation_sessions
finalize_expired_sessions-AllSettled_example =
    finalize_expired_sessions-AllSettled (seconds 130) sample_state

mark_call_enqueued-once_example :
    (mark_call_enqueued 1 (mark_all (2 ∷ 2 ∷ 3 ∷ []) (mark_call_enqueued 1 sample_state).0)).1
    ≡ false
unfolding mark_call_enqueued
mark_call_enqueued-once_example =
    mark_call_enqueued-once 1 (2 ∷ 2 ∷ 3 ∷ []) sample_state
      (omega arith, (omega arith, (omega arith, omega arith)))
