-- ===== src/State/Calls/Writers.antt =====
-- The writers of a stored call in apps/control-plane/src/state.rs: enrich_call,
-- set_call_enrichment, override_call_transcript and set_call_location.
use trunk_scope.Common.{
  ◌≡◌, refl, sym, ◌⊎◌, inl, inr, Option, none, some, List, [], ◌∷◌, arith, ◌==◌, if◌then◌else◌,
  Option-cases, map_some, find, update_first, Text, id_eq, text_key,
}
use trunk_scope.Domain.{Uuid, Call, updated, IncidentLocation}
use trunk_scope.State.App.{AppState, upsert_row}
use trunk_scope.State.Calls.{has_id, enrich_call, set_call_location}
use trunk_scope.State.Calls.Store.{
  IsStore, KeepsId, IsDistinct-update_first, length-update_first_calls, find-update_first,
}

-- `t` is `s` with the call `id`, if there is one, changed and published, and otherwise `s` itself.
abbrev pub Edits : Uuid → (Call → Call) → AppState → AppState → Type 0
Edits id change s t =
    (t.calls ≡ update_first (has_id id) change s.calls)
    × (((find (has_id id) s.calls ≡ none) × (t ≡ s))
        ⊎ ((call : Call) × (find (has_id id) s.calls ≡ some call)
            × (t.events ≡ updated (change call) ∷ s.events)
            × (t.database ≡ upsert_row (change call) ∷ s.database)))

update_first-none :
    (id : Uuid) (f : Call → Call) (calls : List Call)
    → find (has_id id) calls ≡ none
    → update_first (has_id id) f calls ≡ calls
update_first-none id f [] h = refl
update_first-none id f (c ∷ calls) h = ground (arith, update_first-none id f calls)

abbrev transcribe : Text → Option Text → Call → Call
transcribe transcript summary call = record call { transcript = some transcript; summary = summary }

enrich_call-Edits :
    (id : Uuid) (transcript : Text) (summary : Option Text) (s : AppState)
    → Edits id (transcribe transcript summary) s (enrich_call id transcript summary s)
unfolding enrich_call
enrich_call-Edits id transcript summary s = elim (Option-cases (find (has_id id) s.calls)) [
  | inl e ↦
      rw (e, enrich_call)
        (sym (update_first-none id (transcribe transcript summary) s.calls e), inl (refl, refl))
  | inr (found, e) ↦
      rw (e, enrich_call) (ground arith, inr (found, refl, ground arith, ground arith))
]

abbrev locate : IncidentLocation → Call → Call
locate location call = record call { location = some location }

pub set_call_location-Edits :
    (id : Uuid) (location : IncidentLocation) (s : AppState)
    → Edits id (locate location) s (set_call_location id location s)
unfolding set_call_location
set_call_location-Edits id location s = elim (Option-cases (find (has_id id) s.calls)) [
  | inl e ↦
      rw (e, set_call_location)
        (sym (update_first-none id (locate location) s.calls e), inl (refl, refl))
  | inr (found, e) ↦
      rw (e, set_call_location) (ground arith, inr (found, refl, ground arith, ground arith))
]

-- An edit that keeps the call's id keeps the store, changes the call by `change`, and no other.
Edits-IsStore :
    (id : Uuid) (change : Call → Call) (s t : AppState)
    → KeepsId id change
    → Edits id change s t
    → IsStore s.calls
    → IsStore t.calls
      × ((j : Uuid)
          → find (has_id j) t.calls ≡ (
              if j == id
              then map_some change (find (has_id j) s.calls)
              else find (has_id j) s.calls))
Edits-IsStore id change s t keeps (calls, _) (d, n) = (
  rw calls (
    IsDistinct-update_first id change s.calls keeps d,
    omega (arith, length-update_first_calls id change s.calls),
  ),
  λ j. rw calls (find-update_first id change j s.calls keeps),
)

-- `enrich_call` sets the transcript and the summary of the call with its id and of no other, keeps
-- ids distinct and the store bounded, and publishes the call as stored; with no such call the
-- state stays as it was.
pub enrich_call-IsStore :
    (id : Uuid) (transcript : Text) (summary : Option Text) (s : AppState)
    → IsStore s.calls
    → Edits id
        (λ call. record call { transcript = some transcript; summary = summary })
        s
        (enrich_call id transcript summary s)
      × IsStore (enrich_call id transcript summary s).calls
      × ((j : Uuid)
          → find (has_id j) (enrich_call id transcript summary s).calls ≡ (
              if j == id
              then map_some (transcribe transcript summary) (find (has_id j) s.calls)
              else find (has_id j) s.calls))
enrich_call-IsStore id transcript summary s h =
    let edits = enrich_call-Edits id transcript summary s in
    let (store, lookups) =
      Edits-IsStore id (transcribe transcript summary) s (enrich_call id transcript summary s)
        (λ c e. refl) edits h in
    (edits, store, lookups)

-- `set_call_location` sets the location of the call with its id and of no other, keeps ids
-- distinct and the store bounded, and publishes the call as stored; with no such call the state
-- stays as it was.
pub set_call_location-IsStore :
    (id : Uuid) (location : IncidentLocation) (s : AppState)
    → IsStore s.calls
    → Edits id
        (λ call. record call { location = some location })
        s
        (set_call_location id location s)
      × IsStore (set_call_location id location s).calls
      × ((j : Uuid)
          → find (has_id j) (set_call_location id location s).calls ≡ (
              if j == id
              then map_some (locate location) (find (has_id j) s.calls)
              else find (has_id j) s.calls))
set_call_location-IsStore id location s h =
    let edits = set_call_location-Edits id location s in
    let (store, lookups) =
      Edits-IsStore id (locate location) s (set_call_location id location s) (λ c e. refl) edits
        h in
    (edits, store, lookups)
