-- ===== src/State/Sessions/Grouping.antt =====
-- How update_conversation_session of apps/control-plane/src/state.rs keeps the list of sessions.
use trunk_scope.Common.{
  suc, ◌+◌, ◌≤◌, ◌<◌, ◌≡◌, refl, ◌∙◌, ◌⊎◌, inl, inr, Bool, true, false, ◌||◌, List, [], ◌∷◌, ◌++◌,
  map, arith, ◌==◌, ==_refl, Bool-cases, length, take, any, update_first, length-append,
  length-take-le, take_all, length-update_first, text_eq, id_eq, text_key,
}
use trunk_scope.Common.Clock.{Time, seconds}
use trunk_scope.Common.Sort.{
  sort_desc, IsSortedDesc, sort_desc-IsSortedDesc, take-IsSortedDesc, length-sort_desc,
  any-sort_desc,
}
use trunk_scope.Domain.{Uuid, Call, ConversationSession, is_clear}
use trunk_scope.State.App.{AppState}
use trunk_scope.State.Sessions.{
  joins, join, new_session, group, last_activity, update_conversation_session, push_new,
  finalize_expired_sessions, finalize, is_expired, finalized_state, heard_at,
}

abbrev pub is_joined : Uuid → ConversationSession → Bool
is_joined id session = any (λ i. i == id) session.call_ids

any-append {ℓ} :
    {A : Type ℓ} (p : A → Bool) (xs ys : List A) → any p (xs ++ ys) ≡ (any p xs || any p ys)
any-append p [] ys = refl
any-append p (x ∷ xs) ys = ground (arith, any-append p xs ys)

any-push_new : (id : Uuid) (ids : List Uuid) → any (λ i. i == id) (push_new id ids) ≡ true
any-push_new id ids = elim (Bool-cases (any (λ i. i == id) ids)) [
  | inl e ↦ rw e e
  | inr e ↦ rw e (rw (any-append (λ i. i == id) ids (id ∷ [])) (rw e (rw (==_refl id))))
]

any-update_first {ℓ} :
    {A : Type ℓ} (p q : A → Bool) (f : A → A) (xs : List A)
    → ((x : A) → q (f x) ≡ true)
    → any p xs ≡ true
    → any q (update_first p f xs) ≡ true
any-update_first p q f [] h e = cc
any-update_first p q f (x ∷ xs) h e = ground (arith, h x, any-update_first p q f xs h)

group-joined :
    (fresh : Uuid) (call : Call) (sessions : List ConversationSession)
    → any (is_joined call.id) (group fresh call sessions) ≡ true
unfolding group
group-joined fresh call sessions = elim (Bool-cases (any (joins call) sessions)) [
  | inl e ↦ rw e (
      any-update_first (joins call) (is_joined call.id) (join call) sessions
        (λ x. any-push_new call.id x.call_ids) e)
  | inr e ↦ rw e (
      rw (any-append (is_joined call.id) sessions (new_session fresh call ∷ []))
        (ground (arith, ==_refl call.id)))
]

length-group :
    (fresh : Uuid) (call : Call) (sessions : List ConversationSession)
    → length (group fresh call sessions) ≤ suc (length sessions)
unfolding group
length-group fresh call sessions = elim (Bool-cases (any (joins call) sessions)) [
  | inl e ↦ rw e (omega (arith, length-update_first (joins call) (join call) sessions))
  | inr e ↦ rw e (omega (arith, length-append sessions (new_session fresh call ∷ [])))
]

-- In order of last activity, latest first, and no more than are kept.
abbrev pub IsOrdered : List ConversationSession → Type 0
IsOrdered sessions = IsSortedDesc last_activity sessions × (length sessions ≤ 500)

-- After any call the sessions are in order, latest activity first, and at most 500, if they were
-- before.
pub update_conversation_session-IsOrdered :
    (fresh : Uuid) (call : Call) (s : AppState)
    → IsOrdered s.conversation_sessions
    → IsOrdered (update_conversation_session fresh call s).conversation_sessions
unfolding update_conversation_session
update_conversation_session-IsOrdered fresh call s h =
    let grouped = sort_desc last_activity (group fresh call s.conversation_sessions) in
    let ordered : IsOrdered (take 500 grouped) = (
      take-IsSortedDesc last_activity 500 grouped
          (sort_desc-IsSortedDesc last_activity (group fresh call s.conversation_sessions)),
      length-take-le 500 grouped,
    ) in
    elim (Bool-cases (is_clear call.encryption)) [ inl e ↦ rw e ordered | inr e ↦ rw e h ]

-- A clear call is in one of the sessions afterwards, while fewer than 500 are kept.
pub update_conversation_session-joined :
    (fresh : Uuid) (call : Call) (s : AppState)
    → is_clear call.encryption ≡ true
    → length s.conversation_sessions < 500
    → any (is_joined call.id) (update_conversation_session fresh call s).conversation_sessions
      ≡ true
unfolding update_conversation_session
update_conversation_session-joined fresh call s e h =
    let grouped = group fresh call s.conversation_sessions in
    let few : length (sort_desc last_activity grouped) ≤ 500 = omega (
      arith,
      length-sort_desc last_activity grouped,
      length-group fresh call s.conversation_sessions,
    ) in
    rw e (
      rw (take_all 500 (sort_desc last_activity grouped) few) (
        any-sort_desc last_activity (is_joined call.id) grouped
        ∙ group-joined fresh call s.conversation_sessions))

-- Left alone, being finalized or recently active, or finalized after more than twenty seconds.
abbrev pub Settled : Time → ConversationSession → ConversationSession → Type 0
Settled now before after =
    ((after ≡ before)
      × ((text_eq before.state finalized_state ≡ true)
          ⊎ (now ≤ before.last_activity_at + seconds 20)))
    ⊎ ((before.last_activity_at + seconds 20 < now)
        × (after ≡ record before { state = finalized_state }))

abbrev pub AllSettled : Time → List ConversationSession → List ConversationSession → Type 0
AllSettled now [] [] = Unit
AllSettled now (x ∷ xs) (y ∷ ys) = Settled now x y × AllSettled now xs ys
AllSettled now _ _ = ⊥

finalize-Settled : (now : Time) (x : ConversationSession) → Settled now x (finalize now x)
unfolding finalize
finalize-Settled now x = elim (Bool-cases (is_expired now x)) [
  | inl e ↦ rw e (inr (ground arith, refl))
  | inr e ↦ rw e (inl (refl, ground arith))
]

map-AllSettled :
    (now : Time) (xs : List ConversationSession) → AllSettled now xs (map (finalize now) xs)
map-AllSettled now [] = tt
map-AllSettled now (x ∷ xs) = (finalize-Settled now x, map-AllSettled now xs)

unexpired-AllSettled :
    (now : Time) (xs : List ConversationSession)
    → any (is_expired now) xs ≡ false
    → AllSettled now xs xs
unexpired-AllSettled now [] h = tt
unexpired-AllSettled now (x ∷ xs) h =
    (inl (refl, ground arith), unexpired-AllSettled now xs (ground arith))

-- The sweep at `now` leaves each session alone that is finalized or was active in the last twenty
-- seconds, and sets the state of every other one, and nothing else of it, to finalized.
pub finalize_expired_sessions-AllSettled :
    (now : Time) (s : AppState)
    → AllSettled now s.conversation_sessions (finalize_expired_sessions now s).conversation_sessions
unfolding finalize_expired_sessions
finalize_expired_sessions-AllSettled now s =
    elim (Bool-cases (any (is_expired now) s.conversation_sessions)) [
      | inl e ↦ rw e (map-AllSettled now s.conversation_sessions)
      | inr e ↦ rw e (unexpired-AllSettled now s.conversation_sessions e)
    ]

-- Between eleven and twenty seconds of silence a session takes no more calls, and the sweep at the
-- time of such a call leaves it unfinalized.
pub joins-finalize_gap :
    (call : Call) (session : ConversationSession)
    → session.last_activity_at + seconds 11 ≤ heard_at call
    → heard_at call ≤ session.last_activity_at + seconds 20
    → (joins call session ≡ false) × (finalize (heard_at call) session ≡ session)
unfolding joins finalize
joins-finalize_gap call session h k = (ground arith, ground arith)
