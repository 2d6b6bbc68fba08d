-- ===== src/State/Calls/Store.antt =====
-- What upsert_call of apps/control-plane/src/state.rs promises of the recent calls.
use trunk_scope.Common.{
  ℕ, zero, suc, ◌≤◌, ◌<◌, ◌≡◌, refl, sym, ap, ◌∙◌, ◌⊎◌, inl, inr, Bool, true, false, some, List, [],
  ◌∷◌, arith, ◌==◌, if◌then◌else◌, ==_iff, ==_refl, Bool-cases, map_some, length, take, any, find,
  update_first, length-take-le, take_all, length-update_first, id_eq, text_key,
}
use trunk_scope.Domain.{Uuid, Call, CallEvent}
use trunk_scope.State.App.{AppState, persist, execute, send_event, upsert_row}
use trunk_scope.State.Sessions.{update_conversation_session}
use trunk_scope.State.Calls.{max_recent_calls, has_id, put_call, upsert_call}

-- No two calls have one id.
abbrev pub IsDistinct : List Call → Type 0
IsDistinct [] = Unit
IsDistinct (call ∷ calls) = (any (has_id call.id) calls ≡ false) × IsDistinct calls

abbrev pub IsStore : List Call → Type 0
IsStore calls = IsDistinct calls × (length calls ≤ max_recent_calls)

pub any-take {ℓ} :
    {A : Type ℓ} (p : A → Bool) (n : ℕ) (xs : List A) → any p xs ≡ false → any p (take n xs) ≡ false
any-take p zero xs h = refl
any-take p (suc n) [] h = refl
any-take p (suc n) (x ∷ xs) h = ground (arith, any-take p n xs)

IsDistinct-take : (n : ℕ) (calls : List Call) → IsDistinct calls → IsDistinct (take n calls)
IsDistinct-take zero calls h = tt
IsDistinct-take (suc n) [] h = tt
IsDistinct-take (suc n) (call ∷ calls) (p, h) =
    (any-take (has_id call.id) n calls p, IsDistinct-take n calls h)

-- A write that keeps the id of the call it changes.
abbrev pub KeepsId : Uuid → (Call → Call) → Type 0
KeepsId id f = (c : Call) → (c.id == id) ≡ true → (f c).id ≡ c.id

-- Such a write changes no ids.
pub any-update_first :
    (id : Uuid) (f : Call → Call) (j : Uuid) (calls : List Call)
    → KeepsId id f
    → any (has_id j) (update_first (has_id id) f calls) ≡ any (has_id j) calls
any-update_first id f j [] h = refl
any-update_first id f j (c ∷ calls) h = ground (arith, h c, any-update_first id f j calls h)

pub length-update_first_calls :
    (id : Uuid) (f : Call → Call) (calls : List Call)
    → length (update_first (has_id id) f calls) ≡ length calls
length-update_first_calls id f calls = length-update_first (has_id id) f calls

pub IsDistinct-update_first :
    (id : Uuid) (f : Call → Call) (calls : List Call)
    → KeepsId id f
    → IsDistinct calls
    → IsDistinct (update_first (has_id id) f calls)
IsDistinct-update_first id f [] h d = tt
IsDistinct-update_first id f (c ∷ calls) h (p, d) = elim (Bool-cases (c.id == id)) [
  | inl e ↦ rw e (rw (h c e) (p, d))
  | inr e ↦ rw e (any-update_first id f c.id calls h ∙ p, IsDistinct-update_first id f calls h d)
]

-- The changed call is found where the old one was, and the others as before.
pub find-update_first :
    (id : Uuid) (f : Call → Call) (j : Uuid) (calls : List Call)
    → KeepsId id f
    → find (has_id j) (update_first (has_id id) f calls)
      ≡ (if j == id then map_some f (find (has_id j) calls) else find (has_id j) calls)
find-update_first id f j [] h = ground arith
find-update_first id f j (c ∷ calls) h = ground (arith, h c, find-update_first id f j calls h)

find-any :
    (j : Uuid) (calls : List Call)
    → any (has_id j) calls ≡ true
    → (c : Call) × (find (has_id j) calls ≡ some c)
find-any j [] h = cc
find-any j (c ∷ calls) h = elim (Bool-cases (c.id == j)) [
  | inl e ↦ (c, rw e)
  | inr e ↦ let (d, found) = find-any j calls (ground arith) in (d, rw e found)
]

overwrite-KeepsId : (call : Call) → KeepsId call.id (λ _. call)
overwrite-KeepsId call c e = sym ((==_iff c.id call.id).0 e)

pub put_call-IsStore :
    (call : Call) (calls : List Call) → IsStore calls → IsStore (put_call call calls)
unfolding put_call
put_call-IsStore call calls (d, n) = elim (Bool-cases (any (has_id call.id) calls)) [
  | inl e ↦ rw e (
    IsDistinct-update_first call.id (λ _. call) calls (overwrite-KeepsId call) d,
    omega (arith, length-update_first_calls call.id (λ _. call) calls),
  )
  | inr e ↦ rw e (
    IsDistinct-take max_recent_calls (call ∷ calls) (e, d),
    length-take-le max_recent_calls (call ∷ calls),
  )
]

-- What `upsert_call` writes, part by part.
pub upsert_call_parts :
    (fresh : Uuid) (call : Call) (event : CallEvent) (s : AppState)
    → ((upsert_call fresh call event s).calls ≡ put_call call s.calls)
      × ((upsert_call fresh call event s).events ≡ event ∷ s.events)
      × ((upsert_call fresh call event s).database ≡ upsert_row call ∷ s.database)
unfolding upsert_call update_conversation_session persist execute send_event
upsert_call_parts fresh call event s = ground arith

-- Any call keeps the recent calls without repeated ids and at most 200.
pub upsert_call-IsStore :
    (fresh : Uuid) (call : Call) (event : CallEvent) (s : AppState)
    → IsStore s.calls
    → IsStore (upsert_call fresh call event s).calls
upsert_call-IsStore fresh call event s h =
    rw (upsert_call_parts fresh call event s).0 (put_call-IsStore call s.calls h)

find-take_cons :
    (j : Uuid) (call : Call) (calls : List Call)
    → length calls < max_recent_calls
    → (j == call.id) ≡ false
    → find (has_id j) (take max_recent_calls (call ∷ calls)) ≡ find (has_id j) calls
find-take_cons j call calls h e =
    ap (find (has_id j)) (take_all max_recent_calls (call ∷ calls) (omega arith)) ∙ skip
  where
    skip : find (has_id j) (call ∷ calls) ≡ find (has_id j) calls
    skip = ground arith

-- After a store into a list that has the call or has room for it, the call is found under its id
-- and every other id gives what it gave before; the event is sent and the row written.
pub upsert_call-find :
    (fresh : Uuid) (call : Call) (event : CallEvent) (s : AppState)
    → (any (has_id call.id) s.calls ≡ true) ⊎ (length s.calls < max_recent_calls)
    → ((j : Uuid)
        → find (has_id j) (upsert_call fresh call event s).calls
          ≡ (if j == call.id then some call else find (has_id j) s.calls))
      × ((upsert_call fresh call event s).events ≡ event ∷ s.events)
      × ((upsert_call fresh call event s).database ≡ upsert_row call ∷ s.database)
upsert_call-find fresh call event s room =
    let (stored, sent, row) = upsert_call_parts fresh call event s in
    (λ j. rw stored (either j), sent, row)
  where
    found : (c : Call) (calls : List Call) → find (has_id c.id) (put_call c calls) ≡ some c
    found c calls =
        unfold put_call in
        elim (Bool-cases (any (has_id c.id) calls)) [
          | inl e ↦
              let (d, was) = find-any c.id calls e in
              rw e (
                rw (find-update_first c.id (λ _. c) c.id calls (overwrite-KeepsId c))
                  (rw was (rw (==_refl c.id))))
          | inr e ↦ rw e (rw (==_refl c.id))
        ]

    others :
        (j : Uuid) (c : Call) (calls : List Call)
        → (j == c.id) ≡ false
        → (any (has_id c.id) calls ≡ true) ⊎ (length calls < max_recent_calls)
        → find (has_id j) (put_call c calls) ≡ find (has_id j) calls
    others j c calls e room =
        unfold put_call in
        elim (Bool-cases (any (has_id c.id) calls)) [
          | inl old ↦
              rw old (rw (find-update_first c.id (λ _. c) j calls (overwrite-KeepsId c)) (rw e))
          | inr new ↦ rw new (find-take_cons j c calls (ground (arith, room)) e)
        ]

    either :
        (j : Uuid)
        → find (has_id j) (put_call call s.calls)
          ≡ (if j == call.id then some call else find (has_id j) s.calls)
    either j = elim (Bool-cases (j == call.id)) [
      | inl e ↦ rw e (rw ((==_iff j call.id).0 e) (found call s.calls))
      | inr e ↦ rw e (others j call s.calls e room)
    ]
