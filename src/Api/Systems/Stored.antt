-- ===== src/Api/Systems/Stored.antt =====
-- Runs of the system handlers of apps/control-plane/src/api.rs.
use trunk_scope.Common.{
  ℕ, ◌≡◌, refl, sym, ◌∙◌, inl, inr, Bool, true, false, not, Option, none, some, List, [], ◌∷◌, ◌==◌,
  Bool-cases, length, retain, All, All-retain, Text, id_eq, text_key,
}
use mathlib.Core.Path.{subst}
use trunk_scope.Common.Clock.{Time}
use trunk_scope.Domain.{Uuid}
use trunk_scope.State.Profiles.{SystemProfile}
use trunk_scope.State.App.{AppState, write_document}
use trunk_scope.State.Calls.{audit}
use trunk_scope.State.Pipeline.{bump_config_generation}
use trunk_scope.Api.Talkgroups.{write_decoder_config}
use trunk_scope.Api.Systems.{
  Tones, is_untunable, normalized, identified, system_has_id, save_system, update_system,
  delete_system, without_blank_tone, save_normalized,
}
use trunk_scope.Api.Systems.Import.{import_systems}
use trunk_scope.Api.Systems.Tunable.{IsTunable, normalized-IsTunable}
use trunk_scope.Api.Systems.Uploaded.{
  HasUploadControl, persist-systems, put_system-IsTunable, import_systems-IsTunable,
}

-- A request with whether it is let through, its moment and the ids drawn for it.
pub data Request : Type 0 where
  save : Bool → Uuid → SystemProfile → Request
  update : Bool → Uuid → Uuid → SystemProfile → Request
  delete : Bool → Time → Text → Uuid → Request
  upload : Bool → (ℕ → Uuid) → Option (List SystemProfile) → Request

unfoldable pub handle : Tones → Request → AppState → AppState
unfolding save_system update_system delete_system import_systems
handle tones (save allowed fresh profile) s = (save_system tones allowed fresh profile s).1
handle tones (update allowed fresh id profile) s =
    (update_system tones allowed fresh id profile s).1
handle tones (delete allowed now shown id) s = (delete_system allowed now shown id s).1
handle tones (upload allowed fresh profiles) s = (import_systems allowed fresh profiles s).1

unfoldable pub handle_all : Tones → List Request → AppState → AppState
unfolding handle
handle_all tones [] s = s
handle_all tones (r ∷ rs) s = handle_all tones rs (handle tones r s)

-- The uploaded trunked DMR systems have control channels.
abbrev pub HasControl : Request → Type 0
HasControl (upload allowed fresh profiles) = HasUploadControl profiles
HasControl _ = Unit

audit-systems :
    (now : Time) (action kind shown : Text) (s : AppState)
    → (audit now action kind shown s).systems ≡ s.systems
unfolding audit write_document
audit-systems now action kind shown s = persist-systems _ _

module _ (tones : Tones) where
  save_normalized-IsTunable :
      (fresh : Uuid) (s : AppState) (kept : Option SystemProfile)
      → All IsTunable s.systems
      → ((k : SystemProfile) → kept ≡ some k → IsTunable (identified fresh k))
      → All IsTunable (save_normalized fresh s kept).1.systems
  unfolding write_document write_decoder_config bump_config_generation
  save_normalized-IsTunable fresh s none h t = h
  save_normalized-IsTunable fresh s (some k) h t =
      subst (All IsTunable) (sym (persist-systems _ _))
        (put_system-IsTunable (identified fresh k) s.systems (t k refl) h)

  save_system-IsTunable :
      (allowed : Bool) (fresh : Uuid) (profile : SystemProfile) (s : AppState)
      → All IsTunable s.systems
      → All IsTunable (save_system tones allowed fresh profile s).1.systems
  unfolding save_system
  save_system-IsTunable false fresh profile s h = h
  save_system-IsTunable true fresh profile s h =
      elim (Bool-cases (is_untunable (without_blank_tone profile))) [
        | inl e ↦ rw e h
        | inr e ↦ rw e (
            save_normalized-IsTunable fresh s (normalized tones (without_blank_tone profile)) h
              (normalized-IsTunable fresh (without_blank_tone profile) e tones))
      ]

delete_system-IsTunable :
    (allowed : Bool) (now : Time) (shown : Text) (id : Uuid) (s : AppState)
    → All IsTunable s.systems
    → All IsTunable (delete_system allowed now shown id s).1.systems
unfolding delete_system write_document bump_config_generation
delete_system-IsTunable false now shown id s h = h
delete_system-IsTunable true now shown id s h =
    elim (Bool-cases (
      length (retain (λ (x : SystemProfile). not (system_has_id id x)) s.systems)
      == length s.systems)) [
        | inl e ↦ rw e h
        | inr e ↦ rw e (
            subst (All IsTunable)
              (sym (
                persist-systems _ _
                ∙ audit-systems now _ _ shown (record s {
                  systems = retain (λ (x : SystemProfile). not (system_has_id id x)) s.systems;
                })))
              (All-retain IsTunable (λ (x : SystemProfile). not (system_has_id id x)) s.systems h))
      ]

-- Whatever requests to save, update, delete and import systems come, let through or not, every
-- stored system is tunable afterwards if all were before, and if every imported DMR trunked system
-- has a control channel: it is named, a P25 or DMR trunked system has a control channel, a P25 one
-- besides no network code above 0xFFF, and any other system has a frequency.
pub handle_all-IsTunable :
    (tones : Tones) (rs : List Request) (s : AppState)
    → All HasControl rs
    → All IsTunable s.systems
    → All IsTunable (handle_all tones rs s).systems
unfolding handle_all handle update_system
handle_all-IsTunable tones [] s c h = h
handle_all-IsTunable tones (save allowed fresh profile ∷ rs) s (_, c) h =
    handle_all-IsTunable tones rs _ c (save_system-IsTunable tones allowed fresh profile s h)
handle_all-IsTunable tones (update allowed fresh id profile ∷ rs) s (_, c) h =
    handle_all-IsTunable tones rs _ c
      (save_system-IsTunable tones allowed fresh (record profile { id = id }) s h)
handle_all-IsTunable tones (delete allowed now shown id ∷ rs) s (_, c) h =
    handle_all-IsTunable tones rs _ c (delete_system-IsTunable allowed now shown id s h)
handle_all-IsTunable tones (upload allowed fresh profiles ∷ rs) s (u, c) h =
    handle_all-IsTunable tones rs _ c (import_systems-IsTunable allowed fresh profiles s u h)
