-- ===== src/Api/Operations/Threads.antt =====
-- What the threads of operations_summary in apps/control-plane/src/api.rs hold together.
use trunk_scope.Common.{
  ℕ, ◌+◌, ◌≡◌, refl, ◌∙◌, inl, inr, Bool, true, false, ◌||◌, List, [], ◌∷◌, arith, leb,
  if◌then◌else◌, Bool-cases, length, any, retain, Text, text_eq, text_eq_iff, id_eq, text_key,
}
use trunk_scope.Common.Sort.{insert_desc, sort_desc, any-insert_desc, any-sort_desc}
use trunk_scope.Domain.{Call}
use trunk_scope.Api.Operations.{
  IncidentThread, Printing, add_call, new_thread, put_in_thread, thread_calls, threads_of,
  thread_key,
}

abbrev pub has_key : Text → IncidentThread → Bool
has_key key thread = text_eq thread.key key

-- The calls counted under a key.
abbrev pub count_of : Text → List IncidentThread → ℕ
count_of key [] = 0
count_of key (thread ∷ threads) =
    (if text_eq thread.key key then thread.call_count else 0) + count_of key threads

-- No two threads have one key.
abbrev pub IsDistinct : List IncidentThread → Type 0
IsDistinct [] = Unit
IsDistinct (thread ∷ threads) = (any (has_key thread.key) threads ≡ false) × IsDistinct threads

abbrev counted : Bool → ℕ
counted true = 1
counted false = 0

count_of-put_in_thread :
    (k key : Text) (call : Call) (threads : List IncidentThread)
    → count_of k (put_in_thread key call threads) ≡ counted (text_eq key k) + count_of k threads
unfolding put_in_thread add_call new_thread
count_of-put_in_thread k key call [] = ground arith
count_of-put_in_thread k key call (thread ∷ threads) = ground (
  arith,
  text_eq_iff thread.key key,
  text_eq_iff thread.key k,
  text_eq_iff key k,
  count_of-put_in_thread k key call threads,
)

abbrev pub calls_of : Printing → Text → List Call → List Call
calls_of p key = retain λ call. text_eq (thread_key p call) key

count_of-thread_calls :
    (p : Printing) (k : Text) (calls : List Call) (threads : List IncidentThread)
    → count_of k (thread_calls p calls threads) ≡ length (calls_of p k calls) + count_of k threads
unfolding thread_calls
count_of-thread_calls p k [] threads = omega arith
count_of-thread_calls p k (call ∷ calls) threads = ground (
  arith,
  count_of-thread_calls p k calls (put_in_thread (thread_key p call) call threads),
  count_of-put_in_thread k (thread_key p call) call threads,
)

any-put_in_thread :
    (k key : Text) (call : Call) (threads : List IncidentThread)
    → any (has_key k) (put_in_thread key call threads) ≡ (text_eq key k || any (has_key k) threads)
unfolding put_in_thread add_call new_thread
any-put_in_thread k key call [] = refl
any-put_in_thread k key call (thread ∷ threads) = ground (
  arith,
  text_eq_iff thread.key key,
  text_eq_iff thread.key k,
  text_eq_iff key k,
  any-put_in_thread k key call threads,
)

put_in_thread-IsDistinct :
    (key : Text) (call : Call) (threads : List IncidentThread)
    → IsDistinct threads
    → IsDistinct (put_in_thread key call threads)
unfolding put_in_thread add_call new_thread
put_in_thread-IsDistinct key call [] h = (refl, tt)
put_in_thread-IsDistinct key call (thread ∷ threads) (p, h) =
    elim (Bool-cases (text_eq thread.key key)) [
      | inl e ↦ rw (e, put_in_thread) (p, h)
      | inr e ↦
          let other : text_eq key thread.key ≡ false =
            ground (arith, text_eq_iff thread.key key, text_eq_iff key thread.key, e) in
          rw (e, put_in_thread)
            (
              any-put_in_thread thread.key key call threads ∙ ground (arith, other, p),
              put_in_thread-IsDistinct key call threads h,
            )
    ]

thread_calls-IsDistinct :
    (p : Printing) (calls : List Call) (threads : List IncidentThread)
    → IsDistinct threads
    → IsDistinct (thread_calls p calls threads)
unfolding thread_calls
thread_calls-IsDistinct p [] threads h = h
thread_calls-IsDistinct p (call ∷ calls) threads h =
    thread_calls-IsDistinct p calls (put_in_thread (thread_key p call) call threads)
      (put_in_thread-IsDistinct (thread_key p call) call threads h)

module _ (f : IncidentThread → ℕ) where
  count_of-insert_desc :
      (k : Text) (x : IncidentThread) (ys : List IncidentThread)
      → count_of k (insert_desc f x ys) ≡ count_of k (x ∷ ys)
  unfolding insert_desc
  count_of-insert_desc k x [] = refl
  count_of-insert_desc k x (y ∷ ys) = ground (arith, count_of-insert_desc k x ys)

  count_of-sort_desc :
      (k : Text) (xs : List IncidentThread) → count_of k (sort_desc f xs) ≡ count_of k xs
  unfolding sort_desc
  count_of-sort_desc k [] = refl
  count_of-sort_desc k (x ∷ xs) =
      ground (arith, count_of-insert_desc k x (sort_desc f xs), count_of-sort_desc k xs)

  insert_desc-IsDistinct :
      (x : IncidentThread) (ys : List IncidentThread)
      → any (has_key x.key) ys ≡ false
      → IsDistinct ys
      → IsDistinct (insert_desc f x ys)
  unfolding insert_desc
  insert_desc-IsDistinct x [] h d = (refl, tt)
  insert_desc-IsDistinct x (y ∷ ys) h (p, d) = elim (Bool-cases (leb (f y) (f x))) [
    | inl e ↦ rw e (h, (p, d))
    | inr e ↦
        let other : text_eq x.key y.key ≡ false =
          ground (arith, text_eq_iff y.key x.key, text_eq_iff x.key y.key, h) in
        rw e (
          any-insert_desc f (has_key y.key) x ys ∙ ground (arith, other, p),
          insert_desc-IsDistinct x ys (ground (arith, h)) d,
        )
  ]

  sort_desc-IsDistinct : (xs : List IncidentThread) → IsDistinct xs → IsDistinct (sort_desc f xs)
  unfolding sort_desc
  sort_desc-IsDistinct [] h = tt
  sort_desc-IsDistinct (x ∷ xs) (p, h) =
      insert_desc-IsDistinct x (sort_desc f xs) (any-sort_desc f (has_key x.key) xs ∙ p)
        (sort_desc-IsDistinct xs h)

-- The threads of a summary have distinct keys, and for every key the calls counted under it are
-- the calls with that key: each call is in exactly one thread.
pub threads_of-count :
    (p : Printing) (calls : List Call)
    → IsDistinct (threads_of p calls)
      × ((key : Text) → count_of key (threads_of p calls) ≡ length (calls_of p key calls))
unfolding threads_of
threads_of-count p calls =
    let found = thread_calls p calls [] in
    let latest = sort_desc (λ (t : IncidentThread). t.last_seen) found in
    (
      sort_desc-IsDistinct (λ (t : IncidentThread). t.severity) latest
          (sort_desc-IsDistinct (λ (t : IncidentThread). t.last_seen) found
            (thread_calls-IsDistinct p calls [] tt)),
      λ key.
          count_of-sort_desc (λ (t : IncidentThread). t.severity) key latest
          ∙ count_of-sort_desc (λ (t : IncidentThread). t.last_seen) key found
          ∙ count_of-thread_calls p key calls []
          ∙ omega arith,
    )
