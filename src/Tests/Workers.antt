-- ===== src/Tests/Workers.antt =====
-- The theorems on processor.rs and file_ingest.rs of apps/control-plane/src at concrete runs.
use trunk_scope.Common.{
  ℕ, ◌≡◌, refl, true, false, none, some, List, [], ◌∷◌, ltb, if◌then◌else◌, codes, decimal, id_eq,
  text_key,
}
use trunk_scope.Common.Json.{null}
use trunk_scope.Decoder.Event.{Conversions, other}
use trunk_scope.Processing.{World, Attempt, transcript, cause, attempts, attempt_numbers}
use trunk_scope.Processing.Attempts.{outcome, attempts-first_reply}
use trunk_scope.Ingest.{Sidecar, Parsers, Ingest, ingest_files, ingest_round}
use trunk_scope.Ingest.Once.{ingest_round-again}
use trunk_scope.Tests.Samples.{sample_state, sample_settings}

abbrev third_time : ℕ → Attempt
third_time n = if ltb n 3 then cause (codes "timeout") else transcript (codes "Engine 5 on Main St")

abbrev sample_world : World
sample_world = record {
  calls_path = none;
  appears = λ path. true;
  transcribe = λ n settings path. third_time n;
  geocode = λ settings hint. none;
  others = λ wait s. s;
}

attempts-first_reply_example :
    attempts sample_world sample_settings (codes "/calls/a.wav") 1 attempt_numbers sample_state
    ≡ outcome sample_world sample_settings
        (codes "/calls/a.wav")
        1
        (some (3, codes "Engine 5 on Main St"))
        sample_state
attempts-first_reply_example =
    attempts-first_reply sample_world sample_settings (codes "/calls/a.wav") 1 sample_state

abbrev sample_conversions : Conversions
sample_conversions = record {
  parse_f32 = λ t. none;
  parse_f64 = λ t. none;
  round_to_u64 = λ v. v;
  print_f64 = λ v. decimal v;
  print_mhz = λ hz. decimal hz;
  from_timestamp = λ n. none;
}

abbrev sample_parsers : Parsers
sample_parsers = record {
  parse_json = λ t. some null;
  parse_event = λ t. some other;
  event_of = λ v. none;
  with_wav = λ path. path;
}

abbrev sample_files : List Sidecar
sample_files =
    record { path = codes "/calls/a.json"; new_enough = true; payload = some [] }
    ∷ record { path = codes "/calls/b.json"; new_enough = false; payload = some [] }
    ∷ []

abbrev before : Ingest
before = record { seen = []; state = sample_state }

abbrev after : Ingest
after =
    ingest_round sample_conversions sample_parsers
      (λ n. record { for_system = 1; for_call = 2; for_session = 3 }) 5 sample_files before

ingest_round-again_example :
    ingest_round sample_conversions sample_parsers
      (λ n. record { for_system = 4; for_call = 5; for_session = 6 })
      9
      sample_files
      after
    ≡ after
unfolding ingest_files
ingest_round-again_example =
    ingest_round-again sample_conversions sample_parsers
      (λ n. record { for_system = 1; for_call = 2; for_session = 3 })
      (λ n. record { for_system = 4; for_call = 5; for_session = 6 }) 5 9 sample_files before refl
