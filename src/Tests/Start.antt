-- ===== src/Tests/Start.antt =====
-- The theorems on enrichment.rs, providers.rs and the start in state.rs of apps/control-plane/src
-- at concrete runs.
use trunk_scope.Common.{
  ◌+◌, ◌≤◌, ◌≡◌, refl, true, false, none, some, [], ◌∷◌, map_some, length, find, All, Text, codes,
  text_eq, get, if◌then◌else◌, id_eq, text_key,
}
use trunk_scope.Common.Json.{
  Items, Members, find_member, put_member, string, number, pos_int, float, array, object, end, item,
  done, member,
}
use trunk_scope.Domain.{Call, IncidentLocation}
use trunk_scope.State.Settings.{AppSettings}
use trunk_scope.State.App.{AppState}
use trunk_scope.State.Calls.{has_id, set_call_enrichment}
use trunk_scope.Enrichment.{
  Values, verify, eligible, span_of, is_complete, already_processed, validated_result,
}
use trunk_scope.Enrichment.Evidence.{EveryItem, IsQuote, validated_result-IsQuote}
use trunk_scope.Enrichment.Batch.{
  text, Provider, run_batch, task_signature, task_settings, stamped_result, result_of,
}
use trunk_scope.Enrichment.Sent.{IsForEligible, budget, run_batch-requests}
use trunk_scope.Enrichment.Stamps.{set_call_enrichment-already_processed}
use trunk_scope.Start.Defaults.{Environment, effective_geocoder_url}
use trunk_scope.Start.Migration.{is_sdrplay_device, migrate}
use trunk_scope.Start.Kept.{IsUpgrade}
use trunk_scope.Start.Settled.{migrate-settled}
use trunk_scope.Providers.Http.{Services, failed, unreachable}
use trunk_scope.Providers.Geocode.{Floats, geocode, is_finite64, within, f64_90, f64_180}
use trunk_scope.Providers.Geocode.Within.{geocode-within}
use trunk_scope.Tests.Samples.{sample_state, sample_settings, sample_call}

-- Every answer parses as an object with one quote.
abbrev pub quoting : Values
quoting = record {
  parse_json = λ raw. some (
      object (
        member (codes "confidence") (number (pos_int 1))
          (member (codes "evidence") (array (item (string (codes "Engine 4")) end)) done)));
  to_json = λ t. t;
  as_f64 = λ n. 0x3ff0_0000_0000_0000;
  hash_text = length;
  hash_task = λ provider endpoint model prompt version. length model + version;
}

abbrev heard : Text
heard = codes "An Engine 4 responding"

abbrev answered : Members
answered = validated_result quoting [] (codes "m") heard

quoted_place :
    find_member (codes "evidence") answered ≡ some (array (item (span_of (codes "Engine 4") 3) end))
unfolding validated_result find_member text_eq verify put_member
quoted_place = refl

validated_result-IsQuote_example :
    (spans : Items) × (find_member (codes "evidence") answered ≡ some (array spans))
    × EveryItem (IsQuote heard) spans
unfolding validated_result find_member text_eq verify put_member
validated_result-IsQuote_example = validated_result-IsQuote quoting [] (codes "m") heard refl

abbrev pub heard_call : Call
heard_call = record (sample_call 1 0) { transcript = some heard }

abbrev pub enriched_state : AppState
enriched_state = record sample_state {
  calls = heard_call ∷ sample_call 2 0 ∷ [];
  settings = record sample_settings { ai_enabled = true };
}

abbrev answering : Provider
answering = record { summarize = λ sent request. text (codes "{}"); others = λ sent s. s }

-- Of two calls one has a transcript: it is sent for the one task that is asked about.
one_request :
    length
      (run_batch quoting answering
        (codes "correlation" ∷ codes "transcription" ∷ [])
        (record { state = enriched_state; requests = [] })).requests
    ≡ 1
unfolding run_batch eligible already_processed text_eq get find_member
one_request = refl

run_batch-requests_example :
    let sent =
      (run_batch quoting answering
        (codes "correlation" ∷ [])
        (record { state = enriched_state; requests = [] })).requests in
    All (IsForEligible quoting enriched_state.settings enriched_state.calls) sent
    × (length sent ≤ budget enriched_state.settings (codes "correlation" ∷ []))
run_batch-requests_example =
    run_batch-requests quoting answering (codes "correlation" ∷ []) enriched_state

set_call_enrichment-already_processed_example :
    map_some
      (λ c. already_processed quoting c (codes "correlation") (
        task_signature quoting
          (codes "correlation")
          sample_settings
          (get (codes "correlation") sample_settings.ai_tasks)))
      (find
        (has_id 1)
        (set_call_enrichment 1
          (codes "correlation")
          (object (
            stamped_result quoting
              (codes "correlation")
              sample_settings
              heard_call
              (text (codes "{}"))))
          enriched_state).calls)
    ≡ some (
        is_complete (
          result_of quoting
            (task_settings sample_settings
              (get (codes "correlation") sample_settings.ai_tasks)).summary_model
            heard
            (text (codes "{}"))))
set_call_enrichment-already_processed_example =
    set_call_enrichment-already_processed quoting (codes "correlation") sample_settings heard_call
      heard_call (text (codes "{}")) enriched_state refl refl

abbrev bare : Environment
bare = record { var = λ name. none; parse_f32 = λ t. none }

abbrev old_settings : AppSettings
old_settings = record sample_settings { radio_device = codes "driver=SDRplay"; radio_agc = true }

migrated_values :
    ((migrate bare old_settings).0.geocoder_provider ≡ codes "nominatim")
    × ((migrate bare old_settings).0.radio_bandwidth_hz ≡ some 1800000)
    × ((migrate bare old_settings).1 ≡ true)
unfolding migrate
migrated_values = (refl, refl, refl)

migrate-settled_example :
    IsUpgrade old_settings (migrate bare old_settings).0
    × ((migrate bare old_settings).0.radio_agc
        ≡ (if is_sdrplay_device old_settings then false else old_settings.radio_agc))
    × (5 ≤ (migrate bare old_settings).0.schema_version)
    × (migrate bare (migrate bare old_settings).0 ≡ ((migrate bare old_settings).0, false))
migrate-settled_example = migrate-settled bare bare old_settings

-- A service that gives one place for every request.
abbrev one_place : Services
one_place = record {
  read_file = λ path. none;
  transcription = λ request. failed [];
  ollama = λ request. failed [];
  anthropic = λ request. failed [];
  openai = λ request. failed [];
  listing = λ request. unreachable [];
  json = λ request. some (
      array (
        item
          (object (
            member (codes "lat") (number (float 0x4046_32fe_c56d_5cfb))
              (member (codes "lon") (number (float 0xc056_a506_24dd_2f1b)) done)))
          end));
}

abbrev plain_floats : Floats
plain_floats = record { parse_f64 = λ t. none; as_f64 = λ n. elim n [ float v ↦ v | _ ↦ 0 ] }

abbrev located_settings : AppSettings
located_settings = record sample_settings { geocoder_url = codes "http://geo/search" }

abbrev home : IncidentLocation
home = record {
  label = codes "Main Street";
  latitude = 0x4046_32fe_c56d_5cfb;
  longitude = 0xc056_a506_24dd_2f1b;
  confidence = 0x3f33_3333;
}

geocode-within_example :
    (is_finite64 home.latitude ≡ true)
    × (is_finite64 home.longitude ≡ true)
    × (within f64_90 home.latitude ≡ true)
    × (within f64_180 home.longitude ≡ true)
unfolding geocode find_member effective_geocoder_url
geocode-within_example =
    geocode-within one_place plain_floats bare located_settings (codes "Main Street") home refl
