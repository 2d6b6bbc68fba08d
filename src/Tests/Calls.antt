-- ===== src/Tests/Calls.antt =====
-- The theorems on the operator's corrections, the AI tasks and merged recordings in
-- apps/control-plane/src/api.rs at concrete runs.
use trunk_scope.Common.{
  ℕ, ◌/◌, ◌≡◌, refl, true, false, ◌&&◌, none, some, List, [], ◌∷◌, ◌++◌, map, ◌==◌, if◌then◌else◌,
  map_some, length, any, find, retain, All, Text, codes, text_eq, decimal, id_eq, text_key,
}
use trunk_scope.Domain.{Call, Receiver, IncidentLocation}
use trunk_scope.State.Calls.{has_id}
use trunk_scope.State.Profiles.{SystemProfile, SystemSite}
use trunk_scope.Imports.Sites.{Floats, parse_site_csv}
use trunk_scope.Imports.{lines}
use trunk_scope.Api.Talkgroups.{ImportQuery}
use trunk_scope.Api.Sites.{has_name, system_has_id, import_sites}
use trunk_scope.Api.Sites.Merged.{after_import, import_sites-sites}
use trunk_scope.Api.Config.Assigned.{is_receiver, is_given, wanted, systems_for_receiver-one}
use trunk_scope.Api.Policy.{ok, no_content}
use trunk_scope.Common.Clock.{seconds}
use trunk_scope.Common.Sort.{IsSortedDesc}
use trunk_scope.Api.Operations.{IncidentThread, Printing, activity_severity, threads_of}
use trunk_scope.Api.Operations.Threads.{IsDistinct, count_of, calls_of, threads_of-count}
use trunk_scope.Api.Operations.Bounds.{IsBounded, threads_of-IsBounded}
use trunk_scope.Api.Corrections.{confirm_session_location}
use trunk_scope.Api.Corrections.Located.{is_among, located, confirm_session_location-located}
use trunk_scope.Api.Tasks.{retry_call_enrichment}
use trunk_scope.Api.Tasks.Retried.{retry_call_enrichment-again}
use trunk_scope.Api.Wav.{Bytes, pcm_of, merge_wavs}
use trunk_scope.Api.Wav.Merged.{IsDataOf, IsMerged, merge_wavs-IsMerged}
use trunk_scope.Enrichment.{eligible, already_processed}
use trunk_scope.Tests.Samples.{
  sample_call, sample_state, sample_session, sample_system, sample_receiver,
}
use trunk_scope.Tests.Start.{quoting, enriched_state, heard_call}

abbrev corner : IncidentLocation
corner = record { label = codes "Main & 1st"; latitude = 0; longitude = 0; confidence = 0 }

confirm_session_location-located_example :
    ((confirm_session_location true 40 corner sample_state).0 ≡ no_content)
    × ((j : ℕ)
        → find (has_id j) (confirm_session_location true 40 corner sample_state).1.calls ≡ (
            if is_among j (1 ∷ [])
            then map_some (located corner) (find (has_id j) sample_state.calls)
            else find (has_id j) sample_state.calls))
confirm_session_location-located_example =
    confirm_session_location-located 40 corner sample_state sample_session refl

retry_call_enrichment-again_example :
    (after : Call) × (find
        (has_id 1)
        (retry_call_enrichment true 1 (codes "correlation") enriched_state).1.calls
      ≡ some after)
    × (eligible after ≡ true)
    × ((signature : ℕ) → already_processed quoting after (codes "correlation") signature ≡ false)
unfolding retry_call_enrichment eligible
retry_call_enrichment-again_example =
    retry_call_enrichment-again quoting 1 (codes "correlation") enriched_state heard_call refl refl

-- A file with a chunk of three bytes, padded, in front of its data.
abbrev wav : Bytes → Bytes
wav samples =
    codes "RIFF"
    ++ (0 ∷ 0 ∷ 0 ∷ 0 ∷ [])
    ++ codes "WAVE"
    ++ codes "fmt "
    ++ (3 ∷ 0 ∷ 0 ∷ 0 ∷ 7 ∷ 7 ∷ 7 ∷ 0 ∷ [])
    ++ codes "data"
    ++ (2 ∷ 0 ∷ 0 ∷ 0 ∷ [])
    ++ samples

-- The data of two files, of which the second has a byte behind its data.
abbrev both : Bytes
both =
    codes "RIFF"
    ++ (28 ∷ 0 ∷ 0 ∷ 0 ∷ [])
    ++ codes "WAVE"
    ++ codes "fmt "
    ++ (3 ∷ 0 ∷ 0 ∷ 0 ∷ 7 ∷ 7 ∷ 7 ∷ 0 ∷ [])
    ++ codes "data"
    ++ (4 ∷ 0 ∷ 0 ∷ 0 ∷ [])
    ++ (1 ∷ 2 ∷ 3 ∷ 4 ∷ [])

merge_wavs-IsMerged_example :
    (pcm : Bytes) × IsDataOf (wav (1 ∷ 2 ∷ []) ∷ wav (3 ∷ 4 ∷ 5 ∷ []) ∷ []) pcm × IsMerged pcm both
unfolding merge_wavs pcm_of
merge_wavs-IsMerged_example =
    merge_wavs-IsMerged (wav (1 ∷ 2 ∷ []) ∷ wav (3 ∷ 4 ∷ 5 ∷ []) ∷ []) both refl

abbrev sites_csv : Text
sites_csv = codes "RFSS,Site,Hex,NAC,Description\n1,1,1,171,Tower,County,1.0,2.0,30,851.0c,852.0\n"

abbrev plain_sites : Floats
plain_sites = record { parse_f64 = λ t. none; hz_of_mhz = λ t. some 851000000 }

abbrev sites_query : ImportQuery
sites_query = record { system_id = some 7; merge = some (codes "true") }

abbrev tower : SystemSite
tower = record {
  id = 0;
  name = codes "Tower";
  control_channels_hz = 851000000 ∷ [];
  voice_channels_hz = 851000000 ∷ [];
  nac = some 0x171;
  latitude = none;
  longitude = none;
}

import_sites-sites_example :
    let after = import_sites plain_sites true (λ n. n) sites_query (some sites_csv) sample_state in
    (after.0 ≡ ok)
    × ((j : ℕ)
        → (j == 7) ≡ false
        → find (system_has_id j) after.1.systems ≡ find (system_has_id j) sample_state.systems)
    × ((name : Text)
        → map_some
            (λ (found : SystemProfile). find (has_name name) found.sites)
            (find (system_has_id 7) after.1.systems)
          ≡ some (after_import true name (tower ∷ []) sample_system))
unfolding parse_site_csv lines text_eq
import_sites-sites_example =
    import_sites-sites plain_sites (λ n. n) sites_query sites_csv sample_state
      (record { sites = tower ∷ []; rows = 1 }) sample_system refl refl

abbrev receiver_of : ℕ → Receiver
receiver_of id = record sample_receiver { id = id }

systems_for_receiver-one_example :
    length (retain (is_given (some 3) sample_system) (receiver_of 3 ∷ receiver_of 4 ∷ [])) ≡ (
      if sample_system.enabled
        && any (is_receiver (wanted 3 sample_system)) (receiver_of 3 ∷ receiver_of 4 ∷ [])
      then 1
      else 0)
systems_for_receiver-one_example =
    systems_for_receiver-one (receiver_of 3) (receiver_of 4 ∷ []) sample_system (refl, (refl, tt))

abbrev plain_printing : Printing
plain_printing = record {
  show = λ id. decimal id;
  minute = λ t. decimal (t / 60000000000);
  rfc3339 = λ t. [];
  mhz = λ hz. [];
}

abbrev window_calls : List Call
window_calls =
    sample_call 1 (seconds 10) ∷ sample_call 2 (seconds 70) ∷ sample_call 3 (seconds 20) ∷ []

-- Two of the three calls are in one minute.
two_threads :
    map (λ (t : IncidentThread). t.call_count) (threads_of plain_printing window_calls) ≡ 1 ∷ 2 ∷ []
unfolding threads_of text_eq decimal activity_severity
two_threads = refl

threads_of-count_example :
    IsDistinct (threads_of plain_printing window_calls)
    × ((key : Text)
        → count_of key (threads_of plain_printing window_calls)
          ≡ length (calls_of plain_printing key window_calls))
threads_of-count_example = threads_of-count plain_printing window_calls

threads_of-IsBounded_example :
    All IsBounded (threads_of plain_printing window_calls)
    × IsSortedDesc (λ (t : IncidentThread). t.severity) (threads_of plain_printing window_calls)
threads_of-IsBounded_example = threads_of-IsBounded plain_printing window_calls
