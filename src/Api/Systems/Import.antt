-- ===== src/Api/Systems/Import.antt =====
-- The import of systems, import_systems of apps/control-plane/src/api.rs.
use trunk_scope.Common.{
  ℕ, suc, Bool, true, false, not, ◌&&◌, ◌||◌, Option, none, some, List, [], ◌∷◌, if◌then◌else◌,
  map_some, is_empty, trim, starts_with, id_eq, text_key,
}
use trunk_scope.Domain.{Uuid}
use trunk_scope.State.Profiles.{SystemProfile}
use trunk_scope.State.App.{AppState, persist, save_system_row, write_document, systems_document}
use trunk_scope.Api.Policy.{Status, unauthorized, bad_request, created}
use trunk_scope.Api.Talkgroups.{write_decoder_config}
use trunk_scope.Api.Systems.{is_p25, is_zero, nac_too_large, identified, put_system}

abbrev pub is_unimportable : SystemProfile → Bool
is_unimportable profile =
    is_empty (trim profile.name)
    || (is_p25 profile && is_zero profile.control_channel_hz)
    || (is_p25 profile && nac_too_large profile)
    || (not (is_p25 profile) && is_zero profile.frequency_hz)

-- The profiles as they are stored, if all pass; `fresh n` is the id drawn at the n-th.
unfoldable pub import_profiles : (ℕ → Uuid) → ℕ → List SystemProfile → Option (List SystemProfile)
unfolding trim starts_with
import_profiles fresh n [] = some []
import_profiles fresh n (profile ∷ profiles) =
    let rest = import_profiles fresh (suc n) profiles in
    if is_unimportable profile
    then none
    else map_some (λ imported. identified (fresh n) profile ∷ imported) rest

unfoldable pub put_systems : List SystemProfile → List SystemProfile → List SystemProfile
unfolding put_system
put_systems [] systems = systems
put_systems (profile ∷ profiles) systems = put_systems profiles (put_system profile systems)

unfoldable pub send_systems : List SystemProfile → AppState → AppState
unfolding persist
send_systems [] s = s
send_systems (profile ∷ profiles) s = send_systems profiles (persist (save_system_row profile) s)

abbrev pub imported_systems : List SystemProfile → AppState → AppState
imported_systems imported s =
    let systems = put_systems imported s.systems in
    write_decoder_config (
      send_systems imported
        (write_document (systems_document systems) (record s { systems = systems })))

abbrev pub store_imported : AppState → Option (List SystemProfile) → Status × AppState
store_imported s none = (bad_request, s)
store_imported s (some imported) = (created, imported_systems imported s)

-- `profiles` is the body as parsed from CSV or JSON, if that succeeds.
unfoldable pub import_systems :
    Bool → (ℕ → Uuid) → Option (List SystemProfile) → AppState → Status × AppState
unfolding put_systems send_systems write_document write_decoder_config
import_systems false fresh profiles s = (unauthorized, s)
import_systems true fresh none s = (bad_request, s)
import_systems true fresh (some profiles) s =
    if is_empty profiles
    then (bad_request, s)
    else store_imported s (import_profiles fresh 0 profiles)
