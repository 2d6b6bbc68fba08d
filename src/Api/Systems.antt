-- ===== src/Api/Systems.antt =====
-- The system handlers of apps/control-plane/src/api.rs. `parse_f32` reads a float, and `in_50_300`
-- says that it lies between 50 and 300.
pub mod Import
pub mod Stored
pub mod Tunable
pub mod Uploaded
use trunk_scope.Common.{
  ℕ, ◌+◌, ◌-◌, Bool, true, false, not, ◌&&◌, ◌||◌, Option, none, some, List, [], ◌∷◌, ◌++◌, reverse,
  arith, ltb, leb, ◌==◌, if◌then◌else◌, is_none_or, is_some_and, is_some, unwrap_or, or_else,
  length, any, all, retain, update_first, Text, codes, text_eq, is_empty, trim, to_ascii_uppercase,
  strip_prefix, starts_with, id_eq, text_key, Eq,
}
use trunk_scope.Common.Clock.{Time}
use trunk_scope.Common.Float.{F32}
use trunk_scope.Domain.{Uuid, nil_uuid}
use trunk_scope.State.Profiles.{SystemProfile}
use trunk_scope.State.App.{
  AppState, persist, save_system_row, delete_system_row, write_document, systems_document,
}
use trunk_scope.State.Calls.{audit}
use trunk_scope.State.Pipeline.{bump_config_generation}
use trunk_scope.Api.Policy.{Status, unauthorized, bad_request, not_found, created}
use trunk_scope.Api.Talkgroups.{write_decoder_config}

pub record Tones : Type 0 where
  pub parse_f32 : Text → Option F32
  pub in_50_300 : F32 → Bool

abbrev ends : ℕ → Text → Option Text
ends c [] = none
ends c (d ∷ reversed) = if c == d then some (reverse reversed) else none

-- `strip_suffix` of a character.
abbrev strip_suffix : ℕ → Text → Option Text
strip_suffix c text = ends c (reverse text)

abbrev dcs_digits : Text → Text
dcs_digits dcs = unwrap_or (or_else (strip_suffix b'N' dcs) (strip_suffix b'I' dcs)) dcs

abbrev is_dcs : Text → Bool
is_dcs dcs = (length (dcs_digits dcs) == 3) && all (λ c. leb b'0' c && leb c b'7') (dcs_digits dcs)

unfoldable pub valid_analog_tone : Tones → Text → Bool
unfolding trim to_ascii_uppercase text_eq strip_prefix
valid_analog_tone tones value =
    let normalized = to_ascii_uppercase (trim value) in
    text_eq normalized (codes "NONE") || elim (strip_prefix (codes "D") normalized) [
      | some dcs ↦ is_dcs dcs
      | none ↦ is_some_and (tones.parse_f32 normalized) tones.in_50_300
    ]

abbrev pub is_p25 : SystemProfile → Bool
is_p25 profile = starts_with (codes "p25") profile.protocol

abbrev pub is_dmr : SystemProfile → Bool
is_dmr profile = text_eq profile.protocol (codes "dmr")

-- `unwrap_or_default() == 0`
abbrev pub is_zero : Option ℕ → Bool
is_zero hz = unwrap_or hz 0 == 0

abbrev pub nac_too_large : SystemProfile → Bool
nac_too_large profile = is_some_and profile.nac (λ nac. ltb 4095 nac)

abbrev without_blank_tone : SystemProfile → SystemProfile
without_blank_tone profile =
    if is_some_and profile.tone (λ tone. is_empty (trim tone))
    then record profile { tone = none }
    else profile

abbrev is_trunked_profile : SystemProfile → Bool
is_trunked_profile profile = is_p25 profile || is_dmr profile

abbrev is_untunable : SystemProfile → Bool
is_untunable profile =
    is_empty (trim profile.name)
    || (is_trunked_profile profile && is_zero profile.control_channel_hz)
    || (is_p25 profile && nac_too_large profile)
    || (not (is_trunked_profile profile) && is_zero profile.frequency_hz)

abbrev has_modulation : List Text → SystemProfile → Bool
has_modulation allowed profile = is_none_or profile.modulation (λ m. any (text_eq m) allowed)

abbrev pub cleared : SystemProfile → SystemProfile
cleared profile = record profile {
  control_channel_hz = none;
  control_channels_hz = [];
  tone = none;
  nac = none;
}

-- The checks of the branches, and what they store.
abbrev pub valid_dmr_channel : SystemProfile → Bool
valid_dmr_channel profile =
    has_modulation (codes "fsk4" ∷ []) profile
    && is_none_or profile.color_code (λ value. leb value 15)
    && is_none_or profile.time_slot (λ value. leb 1 value && leb value 2)

abbrev pub valid_analog_channel : Tones → SystemProfile → Bool
valid_analog_channel tones profile =
    is_some_and profile.bandwidth_hz (λ b. b == 6250 || b == 12500 || b == 25000)
    && is_some profile.modulation
    && is_none_or profile.tone (valid_analog_tone tones)

abbrev pub analog_channel : SystemProfile → SystemProfile
analog_channel profile = record profile { control_channel_hz = none; nac = none }

abbrev pub trunked_system : SystemProfile → SystemProfile
trunked_system profile = record profile {
  frequency_hz = none;
  tone = none;
  nac = if is_p25 profile then profile.nac else none;
}

-- The branches after the first check; `none` is a bad request.
unfoldable pub normalized : Tones → SystemProfile → Option SystemProfile
unfolding valid_analog_tone text_eq starts_with
normalized tones profile =
    if text_eq profile.protocol (codes "conventional-p25")
    then if has_modulation (codes "fsk4" ∷ codes "qpsk" ∷ []) profile
      then some (cleared profile)
      else none
    else if text_eq profile.protocol (codes "conventional-dmr")
    then if valid_dmr_channel profile then some (cleared profile) else none
    else if not (is_trunked_profile profile)
    then if valid_analog_channel tones profile then some (analog_channel profile) else none
    else some (trunked_system profile)

abbrev pub identified : Uuid → SystemProfile → SystemProfile
identified fresh profile = record profile {
  id = if profile.id == nil_uuid then fresh else profile.id;
  name = trim profile.name;
}

abbrev pub system_has_id : Uuid → SystemProfile → Bool
system_has_id id system = system.id == id

-- The write to `systems`.
unfoldable pub put_system : SystemProfile → List SystemProfile → List SystemProfile
put_system profile systems =
    if any (system_has_id profile.id) systems
    then update_first (system_has_id profile.id) (λ _. profile) systems
    else systems ++ profile ∷ []

abbrev stored_system : SystemProfile → AppState → AppState
stored_system profile s =
    let systems = put_system profile s.systems in
    write_decoder_config (
      persist (save_system_row profile)
        (write_document (systems_document systems) (record s { systems = systems })))

abbrev pub save_normalized : Uuid → AppState → Option SystemProfile → Status × AppState
save_normalized fresh s none = (bad_request, s)
save_normalized fresh s (some kept) = (created, stored_system (identified fresh kept) s)

unfoldable pub save_system : Tones → Bool → Uuid → SystemProfile → AppState → Status × AppState
unfolding put_system persist write_document write_decoder_config trim text_eq starts_with
save_system tones false fresh profile s = (unauthorized, s)
save_system tones true fresh profile s =
    let checked = without_blank_tone profile in
    if is_untunable checked
    then (bad_request, s)
    else save_normalized fresh s (normalized tones checked)

unfoldable pub update_system :
    Tones → Bool → Uuid → Uuid → SystemProfile → AppState → Status × AppState
unfolding save_system
update_system tones allowed fresh id profile s =
    save_system tones allowed fresh (record profile { id = id }) s

-- How a handler ends: with a reply, or never, since it waits for a lock that it holds itself.
pub data Outcome : Type 0 where
  replied : Status → Outcome
  blocked : Outcome

-- `write_decoder_config` bumps the generation and then takes the read lock of `systems`, whose
-- write lock the handler still holds.
unfoldable pub delete_system : Bool → Time → Text → Uuid → AppState → Outcome × AppState
unfolding audit write_document persist bump_config_generation
delete_system false now shown id s = (replied unauthorized, s)
delete_system true now shown id s =
    let systems = retain (λ (system : SystemProfile). not (system_has_id id system)) s.systems in
    if length systems == length s.systems then (replied not_found, s) else (
      blocked,
      bump_config_generation (
          persist (delete_system_row id) (
            write_document (systems_document systems) (
              audit now (codes "system.delete") (codes "system") shown
                (record s { systems = systems })))),
    )
