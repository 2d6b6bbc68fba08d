-- ===== src/Api/Operations.antt =====
-- The threads of operations_summary in apps/control-plane/src/api.rs, with activity_severity and
-- extract_location_hints. How an identifier and a minute are
-- printed is a parameter; a lock that `try_read` finds taken, which leaves no calls, is left out.
pub mod Threads
pub mod Bounds
pub mod Brief
use trunk_scope.Common.{
  ℕ, ◌+◌, ◌-◌, ◌*◌, min, max, Bool, not, ◌&&◌, ◌||◌, Option, none, some, List, [], ◌∷◌, ◌++◌, arith,
  ltb, leb, ◌==◌, if◌then◌else◌, unwrap_or, filter_some, map_some, length, any, retain, Text, codes,
  text_eq, is_empty, trim, to_ascii_lowercase, contains, utf8_len, decimal, id_eq, text_key, Eq,
}
use trunk_scope.Common.Clock.{Time, hours}
use trunk_scope.Common.Sort.{sort_desc}
use trunk_scope.Domain.{Uuid, Call, IncidentLocation}
use trunk_scope.Providers.{after_marker, until_stop}

abbrev has_term : Text → List Text → Bool
has_term haystack terms = any (λ term. contains term haystack) terms

unfoldable pub activity_severity : Text → Option Text → ℕ
unfolding to_ascii_lowercase contains
activity_severity category text =
    let haystack = to_ascii_lowercase (category ++ codes " " ++ unwrap_or text []) in
    if has_term haystack (
      codes "mayday"
      ∷ codes "officer down"
      ∷ codes "structure fire"
      ∷ codes "rescue"
      ∷ codes "pursuit"
      ∷ [])
    then 5
    else if has_term haystack
        (codes "fire" ∷ codes "ems" ∷ codes "medical" ∷ codes "ambulance" ∷ [])
    then 4
    else if has_term haystack (
        codes "law"
        ∷ codes "police"
        ∷ codes "sheriff"
        ∷ codes "traffic"
        ∷ codes "crash"
        ∷ codes "accident"
        ∷ [])
    then 3
    else if has_term haystack (codes "dispatch" ∷ codes "public works" ∷ codes "road" ∷ [])
    then 2
    else 1

abbrev tail_hint : Text → Text → Option Text
tail_hint transcript marker =
    filter_some (λ tail. not (ltb (utf8_len tail) 3 || ltb 80 (utf8_len tail)))
      (map_some (λ text. trim (until_stop text)) (after_marker marker transcript))

abbrev consed {ℓ} : {A : Type ℓ} → Option A → List A → List A
consed none xs = xs
consed (some x) xs = x ∷ xs

abbrev hints_by : Text → List Text → List Text
hints_by transcript [] = []
hints_by transcript (marker ∷ markers) =
    consed (tail_hint transcript marker) (hints_by transcript markers)

unfoldable pub extract_location_hints : Text → List Text
unfolding after_marker until_stop trim utf8_len
extract_location_hints transcript =
    hints_by transcript
      (codes " at " ∷ codes " near " ∷ codes " on " ∷ codes " intersection of " ∷ codes " by " ∷ [])

pub record IncidentThread : Type 0 where
  pub key : Text
  pub system_name : Text
  pub talkgroup_id : ℕ
  pub talkgroup_label : Text
  pub category : Text
  pub severity : ℕ
  pub activity_score : ℕ
  pub call_count : ℕ
  pub first_seen : Time
  pub last_seen : Time
  pub radio_ids : List ℕ
  pub locations : List IncidentLocation
  pub location_hints : List Text
  pub excerpts : List Text

pub record Printing : Type 0 where
  pub show : Uuid → Text
  pub minute : Time → Text  -- `timestamp() / 60`
  pub rfc3339 : Time → Text
  pub mhz : ℕ → Text  -- `frequency as f64 / 1_000_000.0` with four digits

abbrev call_severity : Call → ℕ
call_severity call = activity_severity call.category call.transcript

abbrev pub thread_key : Printing → Call → Text
thread_key p call =
    p.show call.system_id
    ++ codes ":"
    ++ decimal call.talkgroup_id
    ++ codes ":"
    ++ p.minute call.started_at

abbrev last_moment : Call → Time
last_moment call = unwrap_or call.ended_at call.started_at

unfoldable pub new_thread : Text → Call → IncidentThread
new_thread key call = record {
  key = key;
  system_name = call.system_name;
  talkgroup_id = call.talkgroup_id;
  talkgroup_label = call.talkgroup_label;
  category = call.category;
  severity = call_severity call;
  activity_score = 0;
  call_count = 0;
  first_seen = call.started_at;
  last_seen = last_moment call;
  radio_ids = [];
  locations = [];
  location_hints = [];
  excerpts = [];
}

abbrev add_radio : Option ℕ → List ℕ → List ℕ
add_radio none ids = ids
add_radio (some id) ids = if any (λ known. known == id) ids then ids else ids ++ id ∷ []

abbrev add_location : Option IncidentLocation → List IncidentLocation → List IncidentLocation
add_location none places = places
add_location (some place) places =
    if any (λ (known : IncidentLocation). text_eq known.label place.label) places
    then places
    else places ++ place ∷ []

abbrev pub add_hints : List Text → List Text → List Text
add_hints [] hints = hints
add_hints (hint ∷ more) hints =
    let open_slot = ltb (length hints) 5 && not (any (λ known. text_eq known hint) hints) in
    add_hints more (if open_slot then hints ++ hint ∷ [] else hints)

abbrev pub add_excerpt : Option Text → List Text → List Text
add_excerpt none excerpts = excerpts
add_excerpt (some text) excerpts =
    if not (is_empty (trim text)) && ltb (length excerpts) 3
    then excerpts ++ trim text ∷ []
    else excerpts

abbrev pub transcript_hints : Option Text → List Text
transcript_hints none = []
transcript_hints (some transcript) = extract_location_hints transcript

unfoldable pub add_call : Call → IncidentThread → IncidentThread
unfolding trim text_eq
add_call call thread =
    let severity = max thread.severity (call_severity call) in
    let radio_ids = add_radio call.source_radio_id thread.radio_ids in
    record thread {
      call_count = thread.call_count + 1;
      first_seen = min thread.first_seen call.started_at;
      last_seen = max thread.last_seen (last_moment call);
      severity = severity;
      radio_ids = radio_ids;
      locations = add_location call.location thread.locations;
      location_hints = add_hints (transcript_hints call.transcript) thread.location_hints;
      excerpts = add_excerpt call.transcript thread.excerpts;
      activity_score = severity * 100 + (thread.call_count + 1) * 5 + length radio_ids * 3;
    }

-- `grouped.entry(key).or_insert_with(..)` and the writes through it; new threads come last.
unfoldable pub put_in_thread : Text → Call → List IncidentThread → List IncidentThread
unfolding add_call new_thread text_eq
put_in_thread key call [] = add_call call (new_thread key call) ∷ []
put_in_thread key call (thread ∷ threads) =
    let rest = put_in_thread key call threads in
    if text_eq thread.key key then add_call call thread ∷ threads else thread ∷ rest

unfoldable pub thread_calls : Printing → List Call → List IncidentThread → List IncidentThread
unfolding put_in_thread
thread_calls p [] threads = threads
thread_calls p (call ∷ calls) threads =
    thread_calls p calls (put_in_thread (thread_key p call) call threads)

-- The calls that began in the last hours.
abbrev pub window : Time → ℕ → List Call → List Call
window now n = retain λ (call : Call). leb (now - hours n) call.started_at

-- The threads of the summary: the most severe first, and among these the latest.
unfoldable pub threads_of : Printing → List Call → List IncidentThread
unfolding thread_calls sort_desc
threads_of p calls =
    sort_desc (λ (t : IncidentThread). t.severity)
      (sort_desc (λ (t : IncidentThread). t.last_seen) (thread_calls p calls []))
