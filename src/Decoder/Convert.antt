-- ===== src/Decoder/Convert.antt =====
-- convert_call of apps/control-plane/src/decoder.rs.
pub mod Identity
use trunk_scope.Common.{
  ℕ, ◌+◌, ◌-◌, ◌/◌, Bool, not, ◌&&◌, ◌||◌, Option, none, some, List, [], ◌∷◌, ◌++◌, arith, ◌==◌,
  if◌then◌else◌, is_none_or, is_some_and, unwrap_or, filter_some, map_some, and_then, any, find,
  Text, codes, text_eq, is_empty, eq_ignore_ascii_case, decimal, Map, get, insert, id_eq, text_key,
  Eq,
}
use trunk_scope.Common.Float.{F32, f32_0, is_finite, le32}
use trunk_scope.Common.Clock.{Time, milliseconds_between}
use trunk_scope.Common.Json.{object, done}
use trunk_scope.Common.Paths.{is_absolute}
use trunk_scope.Domain.{Uuid, nil_uuid, Call, complete, active, encrypted, clear, AudioAsset}
use trunk_scope.State.Profiles.{SystemProfile}
use trunk_scope.State.App.{AppState}
use trunk_scope.State.Pipeline.{bounded, resolve_call_for_audio, remember_audio}
use trunk_scope.Api.ShortName.{sanitize_short_name}
use trunk_scope.Decoder.Event.{
  DecoderCall, Conversions, text_value, bool_value, parse_epoch, parse_u32,
}

-- The identifiers that `Uuid::new_v4` would give at the code's draws.
pub record Draws : Type 0 where
  pub for_system : Uuid
  pub for_call : Uuid
  pub for_session : Uuid

abbrev is_at : ℕ → SystemProfile → Bool
is_at hz profile = is_some_and profile.frequency_hz (λ f. f == hz)

abbrev is_conventional : SystemProfile → Bool
is_conventional profile =
    text_eq profile.protocol (codes "analog-fm")
    || text_eq profile.protocol (codes "conventional-p25")
    || text_eq profile.protocol (codes "conventional-dmr")

abbrev profile_tone : SystemProfile → Option Text
profile_tone profile = profile.tone

unfoldable pub tone_allowed : List SystemProfile → ℕ → Text → Bool → Bool
tone_allowed systems hz actual analog =
    is_none_or (and_then (find (is_at hz) systems) profile_tone) λ expected.
      eq_ignore_ascii_case expected (codes "none")
      || (not (is_empty actual) && eq_ignore_ascii_case expected actual)
      || (analog && is_empty actual)

unfoldable pub is_dmr_system : List SystemProfile → Text → Bool
is_dmr_system systems short_name =
    any
      (λ (p : SystemProfile).
        text_eq p.protocol (codes "dmr") && text_eq (sanitize_short_name p.name) short_name)
      systems

-- `entry(key).or_insert_with(new)`: the value, and the map with it.
unfoldable pub entry_or_insert : Text → Uuid → Map Text Uuid → Uuid × Map Text Uuid
entry_or_insert key fresh m = elim (get key m) [
  | some id ↦ (id, m)
  | none ↦ (fresh, insert key fresh m)
]

abbrev or_p25_system : Text → Text
or_p25_system [] = codes "P25 system"
or_p25_system (c ∷ s) = c ∷ s

unfoldable pub audio_path : Text → Option Text
audio_path filename =
    if is_empty filename
    then none
    else if is_absolute filename
    then some filename
    else some (codes "/var/lib/trunkscope/calls/" ++ filename)

-- The call's identity: by its recording, else by the decoder's own identifier, in a table that is
-- forgotten when it is full.
unfoldable pub identify : Option Text → Text → Uuid → AppState → Uuid × AppState
unfolding entry_or_insert
identify path source_id fresh s = elim (and_then path (λ p. resolve_call_for_audio p s)) [
  | some existing ↦ (existing, s)
  | none ↦
      let (id, table) = entry_or_insert source_id fresh (bounded s.decoder_calls) in
      (id, record s { decoder_calls = table })
]

abbrev remember : Option Text → Uuid → AppState → AppState
remember none id s = s
remember (some path) id s = remember_audio path id s

abbrev category_of : Bool → Bool → Bool → Text
category_of analog dmr phase2 =
    if analog
    then codes "Analog NFM"
    else if dmr
    then codes "DMR"
    else if phase2
    then codes "P25 Phase 2"
    else codes "P25 Phase 1"

module _ (x : Conversions) where
  abbrev label_of : Option SystemProfile → ℕ → Text → ℕ → Text
  label_of (some profile) hz tag talkgroup_id = x.print_mhz hz ++ codes " MHz · " ++ profile.name
  label_of none hz [] talkgroup_id = codes "Talkgroup " ++ decimal talkgroup_id
  label_of none hz (c ∷ tag) talkgroup_id = c ∷ tag

  abbrev signal_of : Text → F32
  signal_of text =
      unwrap_or (filter_some (λ v. is_finite v && le32 v f32_0) (x.parse_f32 text)) f32_0

  abbrev asset_of : Bool → Option Text → Time → Option Time → Option AudioAsset
  asset_of keep path started ended =
      if keep
      then map_some
          (λ (key : Text). record {
            object_key = key;
            content_type = codes "audio/wav";
            duration_ms = unwrap_or (map_some (milliseconds_between started) ended) 0;
          })
          path
      else none

  -- The call, and the state with the identities that it claimed.
  unfoldable pub build_call : Draws → Time → DecoderCall → Bool → ℕ → ℕ → AppState → Call × AppState
  unfolding audio_path entry_or_insert
  build_call draws now source ended talkgroup_id hz s =
      let short_name = text_value x source.short_name in
      let system_name = or_p25_system short_name in
      let (system_id, systems) = entry_or_insert system_name draws.for_system s.decoder_systems in
      let started_at = unwrap_or (parse_epoch x (text_value x source.start_time)) now in
      let ended_at : Option Time =
        if ended
        then some (unwrap_or (parse_epoch x (text_value x source.stop_time)) now)
        else none in
      let path = audio_path (text_value x source.filename) in
      let (call_id, t) =
        identify path (text_value x source.id) draws.for_call
          (record s { decoder_systems = systems }) in
      (
        record {
          id = call_id;
          system_id = system_id;
          system_name = system_name;
          site_id = nil_uuid;
          talkgroup_id = talkgroup_id;
          talkgroup_label =
              label_of (find (λ p. is_at hz p && is_conventional p) s.systems) hz
                (text_value x source.talkgrouptag) talkgroup_id;
          category =
              category_of (bool_value source.analog) (is_dmr_system s.systems short_name)
                (bool_value source.phase2);
          frequency_hz = hz;
          tdma_slot = if bool_value source.phase2 then some 0 else none;
          source_radio_id = parse_u32 (text_value x source.src_num);
          started_at = started_at;
          ended_at = ended_at;
          state = if ended then complete else active;
          encryption = if bool_value source.is_encrypted then encrypted else clear;
          signal_dbfs = signal_of (text_value x source.signal);
          transcript = none;
          summary = none;
          location = none;
          audio = asset_of (ended && not (bool_value source.is_encrypted)) path started_at ended_at;
          enrichment = object done;
        },
        remember path call_id t,
      )

  -- `none` leaves the state as it was.
  unfoldable pub convert_call :
      Draws → Time → DecoderCall → Bool → AppState → Option (Call × AppState)
  convert_call draws now source ended s =
      and_then (parse_u32 (text_value x source.talkgroup)) λ talkgroup_id.
        and_then (map_some x.round_to_u64 (x.parse_f64 (text_value x source.freq))) λ hz.
          if tone_allowed s.systems hz (text_value x source.tone) (bool_value source.analog)
          then some (build_call draws now source ended talkgroup_id hz s)
          else none
