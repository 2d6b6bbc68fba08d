-- ===== src/State/Calls/Startup.antt =====
-- The calls after a start: hydrate of apps/control-plane/src/sqlite.rs.
use trunk_scope.Common.{
  ℕ, ◌-◌, ◌≤◌, ◌≡◌, refl, sym, ap, ◌∙◌, false, ◌||◌, List, [], ◌∷◌, ◌++◌, reverse, arith, length,
  take, any, All, length-append, take-append, id_eq, text_key,
}
use trunk_scope.Domain.{Uuid, Call}
use trunk_scope.State.App.{AppState}
use trunk_scope.State.Calls.{max_recent_calls, has_id, put_call, add_missing, hydrate}
use trunk_scope.State.Calls.Store.{IsDistinct}
use mathlib.Core.List.{reverse-cons, append_assoc, append-nil}

any-append :
    (id : Uuid) (xs ys : List Call)
    → any (has_id id) (xs ++ ys) ≡ (any (has_id id) xs || any (has_id id) ys)
any-append id [] ys = refl
any-append id (x ∷ xs) ys = ground (arith, any-append id xs ys)

-- No id of the first list is in the second.
abbrev IsApart : List Call → List Call → Type 0
IsApart xs ys = All (λ (x : Call). any (has_id x.id) ys ≡ false) xs

IsApart-snoc :
    (x : Call) (xs ys : List Call) → IsDistinct (x ∷ xs) → IsApart xs ys → IsApart xs (ys ++ x ∷ [])
IsApart-snoc x [] ys d h = tt
IsApart-snoc x (z ∷ zs) ys (p, d) (q, h) =
    (rw (any-append z.id ys (x ∷ [])) (ground arith), IsApart-snoc x zs ys (ground arith, d.1) h)

add_missing_of_IsApart :
    (loaded calls : List Call)
    → IsDistinct loaded
    → IsApart loaded calls
    → add_missing loaded calls ≡ calls ++ loaded
unfolding add_missing
add_missing_of_IsApart [] calls d h = sym (append-nil calls)
add_missing_of_IsApart (x ∷ xs) calls d (p, h) = rw p (
    add_missing_of_IsApart xs (calls ++ x ∷ []) d.1 (IsApart-snoc x xs calls d h)
    ∙ append_assoc calls (x ∷ []) xs)

any-reverse : (id : Uuid) (xs : List Call) → any (has_id id) (reverse xs) ≡ any (has_id id) xs
any-reverse id [] = refl
any-reverse id (x ∷ xs) =
    ap (any (has_id id)) (reverse-cons x xs)
    ∙ (any-append id (reverse xs) (x ∷ []) ∙ ground (arith, any-reverse id xs))

IsDistinct-snoc :
    (x : Call) (xs : List Call)
    → IsDistinct xs
    → any (has_id x.id) xs ≡ false
    → IsDistinct (xs ++ x ∷ [])
IsDistinct-snoc x [] d h = (refl, tt)
IsDistinct-snoc x (y ∷ ys) (p, d) h =
    (rw (any-append y.id ys (x ∷ [])) (ground arith), IsDistinct-snoc x ys d (ground arith))

IsDistinct-reverse : (xs : List Call) → IsDistinct xs → IsDistinct (reverse xs)
IsDistinct-reverse [] d = tt
IsDistinct-reverse (x ∷ xs) (p, d) =
    rw (reverse-cons x xs)
      (IsDistinct-snoc x (reverse xs) (IsDistinct-reverse xs d) (any-reverse x.id xs ∙ p))

IsApart-nil : (xs : List Call) → IsApart xs []
IsApart-nil [] = tt
IsApart-nil (x ∷ xs) = (refl, IsApart-nil xs)

length-reverse : (xs : List Call) → length (reverse xs) ≡ length xs
length-reverse [] = refl
length-reverse (x ∷ xs) =
    ap length (reverse-cons x xs)
    ∙ omega (arith, length-append (reverse xs) (x ∷ []), length-reverse xs)

hydrate-reverse :
    (loaded : List Call) (s : AppState)
    → s.calls ≡ []
    → IsDistinct loaded
    → length loaded ≤ max_recent_calls
    → (hydrate loaded s).calls ≡ reverse loaded
unfolding hydrate
hydrate-reverse [] s e d n = e
hydrate-reverse (x ∷ xs) s e d n =
    let loaded = x ∷ xs in
    let added : add_missing (reverse loaded) s.calls ≡ reverse loaded = rw e (
      add_missing_of_IsApart (reverse loaded) [] (IsDistinct-reverse loaded d)
        (IsApart-nil (reverse loaded))) in
    let room : length (reverse loaded) - max_recent_calls ≡ 0 =
      omega (arith, length-reverse loaded) in
    rw added (rw room)

take-reverse :
    (x : Call) (xs : List Call) (n : ℕ) → length xs ≡ n → take n (reverse (x ∷ xs)) ≡ reverse xs
take-reverse x xs n e =
    ap (take n) (reverse-cons x xs)
    ∙ (rw (← e) (rw (← length-reverse xs) (take-append (reverse xs) (x ∷ []))))

-- Started with an empty list, from 200 stored calls with distinct ids given latest first, the
-- recent calls are the stored ones in the opposite order, earliest first; so storing a call of
-- another id drops the latest stored call and keeps the 199 earlier ones.
pub hydrate-put_call :
    (latest new : Call) (earlier : List Call) (s : AppState)
    → s.calls ≡ []
    → IsDistinct (latest ∷ earlier)
    → length earlier ≡ 199
    → any (has_id new.id) (latest ∷ earlier) ≡ false
    → ((hydrate (latest ∷ earlier) s).calls ≡ reverse (latest ∷ earlier))
      × (put_call new (hydrate (latest ∷ earlier) s).calls ≡ new ∷ reverse earlier)
unfolding put_call
hydrate-put_call latest new earlier s e d n fresh =
    let order = hydrate-reverse (latest ∷ earlier) s e d (omega arith) in
    let absent : any (has_id new.id) (reverse (latest ∷ earlier)) ≡ false =
      any-reverse new.id (latest ∷ earlier) ∙ fresh in
    (order, rw order (rw absent (ap (λ r. new ∷ r) (take-reverse latest earlier 199 n))))
