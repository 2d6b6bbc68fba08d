-- ===== src/Api/Operations/Bounds.antt =====
-- The bounds of the threads of operations_summary in apps/control-plane/src/api.rs.
use trunk_scope.Common.{
  ℕ, ◌+◌, ◌*◌, ◌≤◌, ◌≡◌, refl, Bool, not, ◌&&◌, Option, none, some, List, [], ◌∷◌, ◌++◌, arith, ltb,
  if◌then◌else◌, if_either, length, any, All, length-append, Text, text_eq, trim, id_eq, text_key,
}
use trunk_scope.Common.Sort.{sort_desc, All-sort_desc, IsSortedDesc, sort_desc-IsSortedDesc}
use trunk_scope.Domain.{Call}
use trunk_scope.Api.Operations.{
  IncidentThread, Printing, activity_severity, add_hints, add_excerpt, transcript_hints, add_call,
  new_thread, put_in_thread, thread_calls, threads_of, thread_key,
}

-- A severity from 1 to 5, at least one call, at most five hints and three excerpts, and the score
-- that these make.
abbrev pub IsBounded : IncidentThread → Type 0
IsBounded t =
    (1 ≤ t.severity)
    × (t.severity ≤ 5)
    × (1 ≤ t.call_count)
    × (length t.location_hints ≤ 5)
    × (length t.excerpts ≤ 3)
    × (t.activity_score ≡ t.severity * 100 + t.call_count * 5 + length t.radio_ids * 3)

abbrev grade : Bool → Bool → Bool → Bool → ℕ
grade a b c d = if a then 5 else if b then 4 else if c then 3 else if d then 2 else 1

grade-bounds : (a b c d : Bool) → (1 ≤ grade a b c d) × (grade a b c d ≤ 5)
grade-bounds a b c d = ground arith

activity_severity-bounds :
    (category : Text) (text : Option Text)
    → (1 ≤ activity_severity category text) × (activity_severity category text ≤ 5)
unfolding activity_severity
activity_severity-bounds category text = grade-bounds _ _ _ _

-- One more entry, as long as there is room.
length-added :
    (limit : ℕ) (wanted : Bool) (entry : Text) (kept : List Text)
    → length kept ≤ limit
    → length (if ltb (length kept) limit && wanted then kept ++ entry ∷ [] else kept) ≤ limit
length-added limit wanted entry kept h = ground (arith, h, length-append kept (entry ∷ []))

length-add_hints : (hints kept : List Text) → length kept ≤ 5 → length (add_hints hints kept) ≤ 5
length-add_hints [] kept h = h
length-add_hints (hint ∷ hints) kept h =
    length-add_hints hints _
      (length-added 5 (not (any (λ known. text_eq known hint) kept)) hint kept h)

length-add_excerpt :
    (text : Option Text) (kept : List Text) → length kept ≤ 3 → length (add_excerpt text kept) ≤ 3
length-add_excerpt none kept h = h
length-add_excerpt (some text) kept h = ground (arith, h, length-append kept (trim text ∷ []))

-- What a thread keeps while calls are added.
abbrev IsOpen : IncidentThread → Type 0
IsOpen t = (length t.location_hints ≤ 5) × (length t.excerpts ≤ 3) × (t.severity ≤ 5)

add_call-IsBounded : (call : Call) (t : IncidentThread) → IsOpen t → IsBounded (add_call call t)
unfolding add_call
add_call-IsBounded call t (hints, excerpts, severity) =
    let (low, high) = activity_severity-bounds call.category call.transcript in
    (
      omega (arith, low),
      omega (arith, high),
      omega arith,
      length-add_hints (transcript_hints call.transcript) t.location_hints hints,
      length-add_excerpt call.transcript t.excerpts excerpts,
      refl,
    )

IsBounded-IsOpen : (t : IncidentThread) → IsBounded t → IsOpen t
IsBounded-IsOpen t (low, high, count, hints, excerpts, score) = (hints, excerpts, high)

put_in_thread-IsBounded :
    (key : Text) (call : Call) (threads : List IncidentThread)
    → All IsBounded threads
    → All IsBounded (put_in_thread key call threads)
unfolding put_in_thread new_thread
put_in_thread-IsBounded key call [] h =
    let (low, high) = activity_severity-bounds call.category call.transcript in
    (add_call-IsBounded call (new_thread key call) (omega arith, omega arith, high), tt)
put_in_thread-IsBounded key call (t ∷ threads) (p, h) =
    if_either (All IsBounded) (text_eq t.key key) (add_call call t ∷ threads)
      (t ∷ put_in_thread key call threads) (add_call-IsBounded call t (IsBounded-IsOpen t p), h)
      (p, put_in_thread-IsBounded key call threads h)

thread_calls-IsBounded :
    (p : Printing) (calls : List Call) (threads : List IncidentThread)
    → All IsBounded threads
    → All IsBounded (thread_calls p calls threads)
unfolding thread_calls
thread_calls-IsBounded p [] threads h = h
thread_calls-IsBounded p (call ∷ calls) threads h =
    thread_calls-IsBounded p calls (put_in_thread (thread_key p call) call threads)
      (put_in_thread-IsBounded (thread_key p call) call threads h)

-- Every thread of a summary has a call at least, a severity from 1 to 5, at most five hints and
-- three excerpts, and the score that its severity, calls and radios make; the threads are sorted
-- with the most severe first.
pub threads_of-IsBounded :
    (p : Printing) (calls : List Call)
    → All IsBounded (threads_of p calls)
      × IsSortedDesc (λ (t : IncidentThread). t.severity) (threads_of p calls)
unfolding threads_of
threads_of-IsBounded p calls =
    let found = thread_calls p calls [] in
    let latest = sort_desc (λ (t : IncidentThread). t.last_seen) found in
    (
      All-sort_desc (λ (t : IncidentThread). t.severity) IsBounded latest
          (All-sort_desc (λ (t : IncidentThread). t.last_seen) IsBounded found
            (thread_calls-IsBounded p calls [] tt)),
      sort_desc-IsSortedDesc (λ (t : IncidentThread). t.severity) latest,
    )
