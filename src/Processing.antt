-- ===== src/Processing.antt =====
-- The AI worker of apps/control-plane/src/processor.rs. The services that it asks, the file system
-- and the other tasks are the fields of World.
pub mod Attempts
use trunk_scope.Common.{
  ℕ, ◌+◌, ◌-◌, ◌/◌, ◌%◌, Bool, not, ◌&&◌, ◌||◌, Option, none, some, List, [], ◌∷◌, ◌++◌, arith, ltb,
  ◌==◌, if◌then◌else◌, join_with, is_some, unwrap_or, any, find, Text, codes, is_empty, trim, id_eq,
  text_key, Eq,
}
use trunk_scope.Common.Paths.{is_parent_dir, is_absolute, components, strip_components}
use trunk_scope.Domain.{Uuid, Call, AudioAsset, IncidentLocation, is_clear}
use trunk_scope.State.Profiles.{SystemProfile}
use trunk_scope.State.Settings.{AppSettings}
use trunk_scope.State.App.{AppState}
use trunk_scope.State.Calls.{enrich_call, set_call_location}
use trunk_scope.State.Pipeline.{u64_mod}
use trunk_scope.Providers.{extract_location_hint}

-- What a request for a transcript comes to.
pub data Attempt : Type 0 where
  transcript : Text → Attempt
  cause : Text → Attempt

-- Where the worker waits and the other tasks run: before it reads the settings, until the n-th
-- reply, and until the geocoder's.
pub data Wait : Type 0 where
  preparing locating : Wait
  replying : ℕ → Wait

pub record World : Type 0 where
  pub calls_path : Option Text
  pub appears : Text → Bool  -- the file is there at one of the twenty looks or after them
  pub transcribe : ℕ → AppSettings → Text → Attempt
  pub geocode : AppSettings → Text → Option IncidentLocation
  pub others : Wait → AppState → AppState

-- ProcessingConfig::from_state, as its only field.
unfoldable pub from_state : World → AppState → Option Text
unfolding trim
from_state w s =
    if not s.settings.ai_enabled
      || is_empty (trim s.settings.transcribe_url)
      || is_empty (trim s.settings.transcribe_model)
    then none
    else some (unwrap_or w.calls_path (codes "/var/lib/trunkscope/calls"))

unfoldable pub safe_audio_path : Text → Text → Bool
unfolding components strip_components
safe_audio_path path root =
    is_absolute path
    && is_some (strip_components (components root) (components path))
    && not (any is_parent_dir (components path))

abbrev named_list : Text → List Text → List Text
named_list name items =
    if is_empty items then [] else (name ++ codes ": " ++ join_with (codes ", ") items) ∷ []

abbrev noted : Option Text → List Text
noted none = []
noted (some notes) = if is_empty (trim notes) then [] else (codes "local context: " ++ notes) ∷ []

unfoldable pub local_radio_context : SystemProfile → List Text
unfolding trim
local_radio_context profile =
    named_list (codes "counties") profile.counties
    ++ named_list (codes "townships") profile.townships
    ++ named_list (codes "municipalities") profile.municipalities
    ++ noted profile.local_context

abbrev with_context : List Text → AppSettings → AppSettings
with_context [] settings = settings
with_context (c ∷ cs) settings = record settings {
  transcription_system_prompt =
      settings.transcription_system_prompt
      ++ 10 ∷ codes "Local radio context: "
      ++ join_with (codes "; ") (c ∷ cs);
}

abbrev context_of : Option SystemProfile → List Text
context_of none = []
context_of (some profile) = local_radio_context profile

-- The settings of the requests: those of the state, with the context of the call's system.
unfoldable pub request_settings : Uuid → AppState → AppSettings
unfolding local_radio_context
request_settings system_id s =
    with_context
      (context_of (find (λ (profile : SystemProfile). profile.id == system_id) s.systems))
      s.settings

abbrev pub attempt_numbers : List ℕ
attempt_numbers = 1 ∷ 2 ∷ 3 ∷ 4 ∷ 5 ∷ []

module _ (w : World) where
  abbrev set_location : Uuid → Option IncidentLocation → AppState → AppState
  set_location id none s = s
  set_location id (some location) s = set_call_location id location s

  abbrev store_location : AppSettings → Uuid → Option Text → AppState → AppState
  store_location settings id none s = s
  store_location settings id (some hint) s =
      set_location id (w.geocode settings hint) (w.others locating s)

  -- The branch of a transcript.
  unfoldable pub store_transcript : AppSettings → Uuid → Text → AppState → AppState
  unfolding enrich_call set_call_location extract_location_hint
  store_transcript settings id text s =
      store_location settings id (extract_location_hint text) (enrich_call id text none s)

  -- The branches of an error: only the fifth is shown.
  abbrev failed_attempt : ℕ → Text → AppState → AppState
  failed_attempt n text s = if ltb n 5 then s else record s { ai_last_error = some text }

  -- The loop over the attempts' numbers.
  unfoldable pub attempts : AppSettings → Text → Uuid → List ℕ → AppState → AppState
  unfolding store_transcript
  attempts settings path id [] s = s
  attempts settings path id (n ∷ ns) s = elim (w.transcribe n settings path) [
    | transcript text ↦ store_transcript settings id text (w.others (replying n) s)
    | cause text ↦ attempts settings path id ns (failed_attempt n text (w.others (replying n) s))
  ]

  abbrev process_asset : Text → Call → AudioAsset → AppState → AppState
  process_asset root call asset s =
      if ltb asset.duration_ms 1500 || not (safe_audio_path asset.object_key root)
      then s
      else let ready = w.others preparing s in
        if w.appears asset.object_key
        then attempts (request_settings call.system_id ready) asset.object_key call.id
            attempt_numbers ready
        else ready

  abbrev process_audio : Text → Call → Option AudioAsset → AppState → AppState
  process_audio root call none s = s
  process_audio root call (some asset) s = process_asset root call asset s

  unfoldable pub process_with_retry : Text → Call → AppState → AppState
  unfolding attempts safe_audio_path request_settings
  process_with_retry root call s =
      if is_clear call.encryption then process_audio root call call.audio s else s

  abbrev settled_status : AppState → AppState
  settled_status s = record s {
    ai_worker_status = if is_some s.ai_last_error then codes "error" else codes "idle";
  }

  abbrev process_configured : Call → Option Text → AppState → AppState
  process_configured call none s = record s { ai_worker_status = codes "disabled" }
  process_configured call (some root) s = settled_status (
      process_with_retry root call
        (record s { ai_worker_status = codes "processing"; ai_last_error = none }))

  -- One turn of a worker, with the call that it takes from the queue; `fetch_sub` wraps.
  unfoldable pub worker_turn : AppState → AppState
  unfolding process_with_retry from_state
  worker_turn s = elim s.processing_queue [
    | [] ↦ s
    | call ∷ queue ↦
        let taken = record s {
          processing_queue = queue;
          processing_queue_depth = (s.processing_queue_depth + u64_mod - 1) % u64_mod;
        } in
        process_configured call (from_state w taken) taken
  ]
