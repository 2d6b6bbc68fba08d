-- ===== src/Api/Corrections/Located.antt =====
-- What confirm_session_location of apps/control-plane/src/api.rs does to the stored calls.
use trunk_scope.Common.{
  ◌≡◌, refl, Bool, true, Option, none, some, List, [], ◌∷◌, arith, ◌==◌, if◌then◌else◌, map_some,
  any, find, id_eq, text_key,
}
use trunk_scope.Domain.{Uuid, Call, IncidentLocation, ConversationSession}
use trunk_scope.State.App.{AppState}
use trunk_scope.State.Calls.{has_id, set_call_location}
use trunk_scope.State.Calls.Store.{find-update_first}
use trunk_scope.State.Calls.Writers.{set_call_location-Edits}
use trunk_scope.Api.Policy.{no_content}
use trunk_scope.Api.Corrections.{session_has_id, locate_calls, confirm_session_location}

abbrev pub located : IncidentLocation → Call → Call
located location call = record call { location = some location }

abbrev pub is_among : Uuid → List Uuid → Bool
is_among j ids = any (λ i. i == j) ids

find-set_call_location :
    (id j : Uuid) (location : IncidentLocation) (s : AppState)
    → find (has_id j) (set_call_location id location s).calls ≡ (
        if j == id
        then map_some (located location) (find (has_id j) s.calls)
        else find (has_id j) s.calls)
find-set_call_location id j location s =
    rw (set_call_location-Edits id location s).0
      (find-update_first id (located location) j s.calls (λ c e. refl))

-- A call located twice is located.
located_twice :
    (location : IncidentLocation) (o : Option Call)
    → map_some (located location) (map_some (located location) o) ≡ map_some (located location) o
located_twice location none = refl
located_twice location (some call) = refl

find-locate_calls :
    (ids : List Uuid) (j : Uuid) (location : IncidentLocation) (s : AppState)
    → find (has_id j) (locate_calls ids location s).calls ≡ (
        if is_among j ids
        then map_some (located location) (find (has_id j) s.calls)
        else find (has_id j) s.calls)
unfolding locate_calls
find-locate_calls [] j location s = refl
find-locate_calls (id ∷ ids) j location s =
    rw (find-locate_calls ids j location (set_call_location id location s)) (
      rw (find-set_call_location id j location s)
        (ground (arith, located_twice location (find (has_id j) s.calls))))

-- Confirming the location of a session that is there gives this location to every stored call of
-- the session and leaves each other call as it was; the answer is 204.
pub confirm_session_location-located :
    (id : Uuid) (location : IncidentLocation) (s : AppState) (session : ConversationSession)
    → find (session_has_id id) s.conversation_sessions ≡ some session
    → let after = confirm_session_location true id location s in
      (after.0 ≡ no_content)
      × ((j : Uuid)
          → find (has_id j) after.1.calls ≡ (
              if is_among j session.call_ids
              then map_some (located location) (find (has_id j) s.calls)
              else find (has_id j) s.calls))
unfolding confirm_session_location
confirm_session_location-located id location s session e =
    rw (e, confirm_session_location) (refl, λ j. find-locate_calls session.call_ids j location s)
