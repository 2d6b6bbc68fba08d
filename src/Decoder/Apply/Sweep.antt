-- ===== src/Decoder/Apply/Sweep.antt =====
-- The stale sweep of apps/control-plane/src/decoder.rs.
mod Tracked
use trunk_scope.Common.{
  ◌≡◌, refl, sym, ◌∙◌, ◌⊎◌, inl, inr, true, false, List, [], ◌∷◌, map, arith, ◌==◌, ==_iff, ==_refl,
  Bool-cases, Option-cases, take, any, find, retain, update_first, All, length-update_first,
  find-none-any, remove, id_eq, text_key,
}
use mathlib.Core.Path.{subst}
use trunk_scope.Common.Clock.{Time}
use trunk_scope.Domain.{Uuid, Call, ended, is_active}
use trunk_scope.State.App.{AppState, persist, execute, send_event}
use trunk_scope.State.Sessions.{update_conversation_session}
use trunk_scope.State.Calls.{has_id, upsert_call, put_call}
use trunk_scope.State.Calls.Store.{
  any-take, IsStore, IsDistinct, upsert_call_parts, put_call-IsStore,
}
use trunk_scope.Decoder.Apply.{
  is_stale, is_open, close, finalize_stale, finalize_all, sweep_stale_calls,
}
use trunk_scope.Decoder.Apply.Sweep.Tracked.{
  Covered, stale_keys, Covered-stale, Covered-remove, Covered-nil,
}

finalize_stale-tracked :
    (fresh : Uuid) (now : Time) (id : Uuid) (s : AppState)
    → (finalize_stale fresh now id s).decoder_active_calls ≡ remove id s.decoder_active_calls
unfolding finalize_stale upsert_call update_conversation_session persist execute send_event
finalize_stale-tracked fresh now id s = ground arith

finalize_all-Covered :
    (fresh : Uuid → Uuid) (now : Time) (ids : List Uuid) (s : AppState)
    → Covered now ids s.decoder_active_calls
    → any (is_stale now) (finalize_all fresh now ids s).decoder_active_calls ≡ false
unfolding finalize_all
finalize_all-Covered fresh now [] s h = Covered-nil now s.decoder_active_calls h
finalize_all-Covered fresh now (id ∷ ids) s h =
    finalize_all-Covered fresh now ids (finalize_stale (fresh id) now id s) (
      rw (finalize_stale-tracked (fresh id) now id s)
        (Covered-remove now id ids s.decoder_active_calls h))

-- A call that is stored complete opens no call.
any-put_call :
    (j : Uuid) (call : Call) (calls : List Call)
    → is_active call.state ≡ false
    → any (is_open j) calls ≡ false
    → any (is_open j) (put_call call calls) ≡ false
unfolding put_call
any-put_call j call calls e h = elim (Bool-cases (any (has_id call.id) calls)) [
  | inl old ↦ rw old (overwrite calls h)
  | inr new ↦ rw new (first (take 199 calls) (any-take (is_open j) 199 calls h))
]
  where
    overwrite :
        (cs : List Call)
        → any (is_open j) cs ≡ false
        → any (is_open j) (update_first (has_id call.id) (λ _. call) cs) ≡ false
    overwrite [] h = refl
    overwrite (c ∷ cs) h = ground (arith, overwrite cs)

    first : (cs : List Call) → any (is_open j) cs ≡ false → any (is_open j) (call ∷ cs) ≡ false
    first cs h = ground arith

close_first :
    (now : Time) (j id : Uuid) (cs : List Call)
    → any (is_open j) cs ≡ false
    → any (is_open j) (update_first (is_open id) (close now) cs) ≡ false
close_first now j id [] h = refl
close_first now j id (c ∷ cs) h = ground (arith, close_first now j id cs)

-- No call of an id that the list does not have is open.
not_open : (id : Uuid) (cs : List Call) → any (has_id id) cs ≡ false → any (is_open id) cs ≡ false
not_open id [] h = refl
not_open id (c ∷ cs) h = ground (arith, not_open id cs)

close_first_self :
    (now : Time) (id : Uuid) (cs : List Call)
    → IsDistinct cs
    → any (is_open id) (update_first (is_open id) (close now) cs) ≡ false
close_first_self now id [] h = refl
close_first_self now id (c ∷ cs) (fresh, h) = elim (Bool-cases (is_open id c)) [
  | inl o ↦ rw o (closed o)
  | inr o ↦ rw o (rw o (close_first_self now id cs h))
]
  where
    closed : (is_open id c ≡ true) → any (is_open id) (close now c ∷ cs) ≡ false
    closed o = ground (arith, not_open id cs, ==_iff c.id id)

first_open-IsDistinct :
    (now : Time) (id : Uuid) (cs : List Call)
    → IsDistinct cs
    → IsDistinct (update_first (is_open id) (close now) cs)
first_open-IsDistinct now id [] h = tt
first_open-IsDistinct now id (c ∷ cs) (p, h) = elim (Bool-cases (is_open id c)) [
  | inl o ↦ rw o (p, h)
  | inr o ↦ rw o (same_ids c.id cs ∙ p, first_open-IsDistinct now id cs h)
]
  where
    same_ids :
        (j : Uuid) (ds : List Call)
        → any (has_id j) (update_first (is_open id) (close now) ds) ≡ any (has_id j) ds
    same_ids j [] = refl
    same_ids j (d ∷ ds) = ground (arith, same_ids j ds)

abbrev settled_calls : Time → Uuid → Call → List Call → List Call
settled_calls now id c calls = put_call (close now c) (update_first (is_open id) (close now) calls)

finalize_stale-calls :
    (fresh : Uuid) (now : Time) (id : Uuid) (s : AppState)
    → ((any (is_open id) s.calls ≡ false) × ((finalize_stale fresh now id s).calls ≡ s.calls))
      ⊎ ((c : Call) × ((finalize_stale fresh now id s).calls ≡ settled_calls now id c s.calls))
unfolding finalize_stale
finalize_stale-calls fresh now id s = elim (Option-cases (find (is_open id) s.calls)) [
  | inl e ↦ inl (find-none-any (is_open id) s.calls e, rw (e, finalize_stale) refl)
  | inr (c, e) ↦ inr (
    c,
    rw (e, finalize_stale)
        (upsert_call_parts fresh (close now c) (ended (close now c))
          (record s { calls = update_first (is_open id) (close now) s.calls })).0,
  )
]

finalize_stale-IsStore :
    (fresh : Uuid) (now : Time) (id : Uuid) (s : AppState)
    → IsStore s.calls
    → IsStore (finalize_stale fresh now id s).calls
finalize_stale-IsStore fresh now id s (d, n) = elim (finalize_stale-calls fresh now id s) [
  | inl (h, e) ↦ rw e (d, n)
  | inr (c, e) ↦ rw e (
      put_call-IsStore (close now c) (update_first (is_open id) (close now) s.calls) (
        first_open-IsDistinct now id s.calls d,
        omega (arith, length-update_first (is_open id) (close now) s.calls),
      ))
]

finalize_stale-closes :
    (fresh : Uuid) (now : Time) (id : Uuid) (s : AppState)
    → IsStore s.calls
    → any (is_open id) (finalize_stale fresh now id s).calls ≡ false
finalize_stale-closes fresh now id s (d, n) = elim (finalize_stale-calls fresh now id s) [
  | inl (h, e) ↦ rw e h
  | inr (c, e) ↦ rw e (
      any-put_call id (close now c) (update_first (is_open id) (close now) s.calls) refl
        (close_first_self now id s.calls d))
]

finalize_stale-keeps :
    (fresh : Uuid) (now : Time) (id j : Uuid) (s : AppState)
    → any (is_open j) s.calls ≡ false
    → any (is_open j) (finalize_stale fresh now id s).calls ≡ false
finalize_stale-keeps fresh now id j s h = elim (finalize_stale-calls fresh now id s) [
  | inl (k, e) ↦ rw e h
  | inr (c, e) ↦ rw e (
      any-put_call j (close now c) (update_first (is_open id) (close now) s.calls) refl
        (close_first now j id s.calls h))
]

finalize_all-keeps :
    (fresh : Uuid → Uuid) (now : Time) (ids : List Uuid) (j : Uuid) (s : AppState)
    → any (is_open j) s.calls ≡ false
    → any (is_open j) (finalize_all fresh now ids s).calls ≡ false
unfolding finalize_all
finalize_all-keeps fresh now [] j s h = h
finalize_all-keeps fresh now (id ∷ ids) j s h =
    finalize_all-keeps fresh now ids j (finalize_stale (fresh id) now id s)
      (finalize_stale-keeps (fresh id) now id j s h)

finalize_all-closes :
    (fresh : Uuid → Uuid) (now : Time) (ids : List Uuid) (s : AppState)
    → IsStore s.calls
    → All (λ j. any (is_open j) (finalize_all fresh now ids s).calls ≡ false) ids
unfolding finalize_all
finalize_all-closes fresh now [] s h = tt
finalize_all-closes fresh now (id ∷ ids) s h = (
  finalize_all-keeps fresh now ids id (finalize_stale (fresh id) now id s)
      (finalize_stale-closes (fresh id) now id s h),
  finalize_all-closes fresh now ids (finalize_stale (fresh id) now id s)
      (finalize_stale-IsStore (fresh id) now id s h),
)

-- After a sweep, of a state whose calls have distinct ids and at most 200 of them, no tracked
-- call is stale, and each call that was stale is not open any more.
pub sweep_stale_calls-closes :
    (fresh : Uuid → Uuid) (now : Time) (s : AppState)
    → IsStore s.calls
    → (any (is_stale now) (sweep_stale_calls fresh now s).decoder_active_calls ≡ false)
      × All
          (λ j. any (is_open j) (sweep_stale_calls fresh now s).calls ≡ false)
          (stale_keys now s.decoder_active_calls)
unfolding sweep_stale_calls
sweep_stale_calls-closes fresh now s h = (
  finalize_all-Covered fresh now (stale_keys now s.decoder_active_calls) s
      (Covered-stale now s.decoder_active_calls),
  finalize_all-closes fresh now (stale_keys now s.decoder_active_calls) s h,
)
