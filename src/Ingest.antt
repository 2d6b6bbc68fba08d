-- ===== src/Ingest.antt =====
-- The loop of apps/control-plane/src/file_ingest.rs over the sidecar files of the decoder. The
-- directory walk, the file system's answers and the JSON parser are parameters.
pub mod Once
use trunk_scope.Common.{
  ℕ, suc, Bool, true, false, not, Option, none, some, List, [], ◌∷◌, arith, ltb, if◌then◌else◌,
  is_some_and, unwrap_or, map_some, and_then, length, any, Text, codes, text_eq,
  eq_ignore_ascii_case, id_eq, text_key, Eq,
}
use trunk_scope.Common.Clock.{Time}
use trunk_scope.Common.Json.{
  Json, null, boolean, number, string, object, array, item, member, done, pos_int, get_key, as_str,
}
use trunk_scope.Common.Paths.{file_stem}
use trunk_scope.State.App.{AppState}
use trunk_scope.Decoder.Event.{Conversions, StatusEvent}
use trunk_scope.Decoder.Convert.{Draws}
use trunk_scope.Decoder.Apply.{ingest_status_payload}

abbrev first_item : Json → Option Json
first_item (array (item v items)) = some v
first_item _ = none

-- `value.get(key).cloned().unwrap_or_default()`
abbrev key_or_null : Text → Json → Json
key_or_null key value = unwrap_or (get_key key value) null

abbrev key_or_zero : Text → Json → Json
key_or_zero key value = unwrap_or (get_key key value) (number (pos_int 0))

abbrev source_number : Json → Json
source_number value =
    unwrap_or
      (and_then (and_then (get_key (codes "srcList") value) first_item) (get_key (codes "src")))
      null

abbrev is_analog : Json → Bool
is_analog value =
    is_some_and (and_then (get_key (codes "audio_type") value) as_str)
      (λ kind. eq_ignore_ascii_case kind (codes "analog"))

-- `with_wav path` is `path.with_extension("wav")` as text.
abbrev sidecar_call : Text → Text → Json → Json → Json → Json
sidecar_call wav stem talkgroup freq value = object (
    member (codes "id") (string stem) (
      member (codes "freq") freq (
        member (codes "shortName") (key_or_null (codes "short_name") value) (
          member (codes "talkgroup") talkgroup (
            member (codes "talkgrouptag") (key_or_null (codes "talkgroup_tag") value) (
              member (codes "analog") (boolean (is_analog value)) (
                member (codes "tone") (key_or_null (codes "tone") value) (
                  member (codes "signal") (key_or_null (codes "signal") value) (
                    member (codes "noise") (key_or_null (codes "noise") value) (
                      member (codes "phase2") (key_or_zero (codes "phase2_tdma") value) (
                        member (codes "encrypted") (key_or_zero (codes "encrypted") value) (
                          member (codes "startTime") (key_or_null (codes "start_time") value) (
                            member (codes "stopTime") (key_or_null (codes "stop_time") value) (
                              member (codes "srcNum") (source_number value)
                                (member (codes "filename") (string wav) done)))))))))))))))

abbrev call_end : Json → Json
call_end call =
    object (member (codes "type") (string (codes "call_end")) (member (codes "call") call done))

-- `normalize_sidecar` after the parse and before the printing of the JSON; `none` where the source
-- returns none.
unfoldable pub normalize_sidecar : (Text → Text) → Json → Text → Option Json
unfolding eq_ignore_ascii_case file_stem
normalize_sidecar with_wav value path = elim (get_key (codes "type") value) [
  | some kind ↦ none
  | none ↦ and_then (get_key (codes "talkgroup") value) (λ talkgroup.
      and_then (file_stem path) (λ stem.
        map_some (λ freq. call_end (sidecar_call (with_wav path) stem talkgroup freq value))
          (get_key (codes "freq") value)))
]

-- A file of the walk: its path, whether it was changed after the start, and its text if it can be
-- read.
pub record Sidecar : Type 0 where
  pub path : Text
  pub new_enough : Bool
  pub payload : Option Text

-- The parsers of serde_json, and the path's change of its extension.
pub record Parsers : Type 0 where
  pub parse_json : Text → Option Json
  pub parse_event : Text → Option StatusEvent
  pub event_of : Json → Option StatusEvent
  pub with_wav : Text → Text

abbrev pub has_path : Text → List Text → Bool
has_path path seen = any (λ p. text_eq p path) seen

-- The loop's variables and the shared state.
pub record Ingest : Type 0 where
  pub seen : List Text  -- a set
  pub state : AppState

abbrev pub see : Text → List Text → List Text
see path seen = if has_path path seen then seen else path ∷ seen

module _ (x : Conversions) (parsers : Parsers) where
  abbrev pub event_of_payload : Text → Text → Option StatusEvent
  event_of_payload path payload =
      elim (and_then (parsers.parse_json payload)
        (λ value. normalize_sidecar parsers.with_wav value path)) [
          | some normalized ↦ parsers.event_of normalized
          | none ↦ parsers.parse_event payload
        ]

  abbrev seen_if : Text → List Text → AppState × Bool → Ingest
  seen_if path seen (s, true) = record { seen = see path seen; state = s }
  seen_if path seen (s, false) = record { seen = seen; state = s }

  abbrev read_payload : Draws → Time → Text → Option Text → Ingest → Ingest
  read_payload draws now path none v = v
  read_payload draws now path (some payload) v =
      seen_if path v.seen
        (ingest_status_payload x draws now (event_of_payload path payload) v.state)

  -- One file of a round.
  unfoldable pub ingest_file : Draws → Time → Sidecar → Ingest → Ingest
  unfolding ingest_status_payload normalize_sidecar text_eq
  ingest_file draws now file v =
      if has_path file.path v.seen
      then v
      else if not file.new_enough
      then record v { seen = see file.path v.seen }
      else read_payload draws now file.path file.payload v

  -- `draws n` are the ids drawn for the n-th file of the round.
  unfoldable pub ingest_files : (ℕ → Draws) → ℕ → Time → List Sidecar → Ingest → Ingest
  unfolding ingest_file
  ingest_files draws n now [] v = v
  ingest_files draws n now (file ∷ files) v =
      ingest_files draws (suc n) now files (ingest_file (draws n) now file v)

  abbrev trimmed : Ingest → Ingest
  trimmed v = if ltb 10000 (length v.seen) then record v { seen = [] } else v

  -- A later round of the loop.
  unfoldable pub ingest_round : (ℕ → Draws) → Time → List Sidecar → Ingest → Ingest
  unfolding ingest_files
  ingest_round draws now files v = trimmed (ingest_files draws 0 now files v)

-- The first round only remembers what is there.
unfoldable pub first_round : List Sidecar → AppState → Ingest
unfolding text_eq
first_round [] s = record { seen = []; state = s }
first_round (file ∷ files) s =
    let rest = first_round files s in record rest { seen = see file.path rest.seen }
