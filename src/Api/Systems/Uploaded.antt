-- ===== src/Api/Systems/Uploaded.antt =====
-- The import of systems, import_systems of apps/control-plane/src/api.rs, stores tunable systems.
use trunk_scope.Common.{
  ℕ, suc, ◌≡◌, refl, sym, ◌∙◌, inl, inr, Bool, true, false, not, ◌||◌, Option, none, some, List, [],
  ◌∷◌, arith, Bool-cases, Option-cases, any, update_first, All, All-append, id_eq, text_key,
}
use mathlib.Core.Path.{subst}
use mathlib.Core.Option.{some-injective}
use trunk_scope.Domain.{Uuid}
use trunk_scope.State.Profiles.{SystemProfile}
use trunk_scope.State.App.{AppState, Command, persist, write_document}
use trunk_scope.State.Pipeline.{bump_config_generation}
use trunk_scope.Api.Talkgroups.{write_decoder_config}
use trunk_scope.Api.Systems.{is_dmr, is_zero, identified, put_system, system_has_id}
use trunk_scope.Api.Systems.Import.{
  is_unimportable, import_profiles, put_systems, send_systems, import_systems, store_imported,
}
use trunk_scope.Api.Systems.Tunable.{IsTunable}

pub persist-systems : (c : Command) (s : AppState) → (persist c s).systems ≡ s.systems
unfolding persist
persist-systems c s = elim (Option-cases s.persistence) [
  | inl e ↦ rw (e, persist) refl
  | inr (sent, e) ↦ rw (e, persist) refl
]

send_systems-systems :
    (sent : List SystemProfile) (s : AppState) → (send_systems sent s).systems ≡ s.systems
unfolding send_systems
send_systems-systems [] s = refl
send_systems-systems (profile ∷ profiles) s =
    send_systems-systems profiles (persist _ s) ∙ persist-systems _ s

update_first-IsTunable :
    (profile : SystemProfile) (systems : List SystemProfile)
    → IsTunable profile
    → All IsTunable systems
    → All IsTunable (update_first (system_has_id profile.id) (λ _. profile) systems)
update_first-IsTunable profile [] t h = tt
update_first-IsTunable profile (x ∷ xs) t (u, h) = elim (Bool-cases (system_has_id profile.id x)) [
  | inl e ↦ rw e (t, h)
  | inr e ↦ rw e (u, update_first-IsTunable profile xs t h)
]

pub put_system-IsTunable :
    (profile : SystemProfile) (systems : List SystemProfile)
    → IsTunable profile
    → All IsTunable systems
    → All IsTunable (put_system profile systems)
unfolding put_system
put_system-IsTunable profile systems t h =
    elim (Bool-cases (any (system_has_id profile.id) systems)) [
      | inl e ↦ rw e (update_first-IsTunable profile systems t h)
      | inr e ↦ rw e (All-append IsTunable systems (profile ∷ []) h (t, tt))
    ]

put_systems-IsTunable :
    (profiles systems : List SystemProfile)
    → All IsTunable profiles
    → All IsTunable systems
    → All IsTunable (put_systems profiles systems)
unfolding put_systems
put_systems-IsTunable [] systems t h = h
put_systems-IsTunable (profile ∷ profiles) systems (t, ts) h =
    put_systems-IsTunable profiles (put_system profile systems) ts
      (put_system-IsTunable profile systems t h)

-- A trunked DMR system has a control channel, which an import does not look at.
abbrev HasDmrControl : SystemProfile → Type 0
HasDmrControl p = (not (is_dmr p) || not (is_zero p.control_channel_hz)) ≡ true

abbrev pub HasUploadControl : Option (List SystemProfile) → Type 0
HasUploadControl none = Unit
HasUploadControl (some profiles) = All HasDmrControl profiles

imported-IsTunable :
    (fresh : Uuid) (profile : SystemProfile)
    → HasDmrControl profile
    → is_unimportable profile ≡ false
    → IsTunable (identified fresh profile)
imported-IsTunable fresh profile h e = ground (arith, h, e)

import_profiles-IsTunable :
    (fresh : ℕ → Uuid) (n : ℕ) (profiles imported : List SystemProfile)
    → All HasDmrControl profiles
    → import_profiles fresh n profiles ≡ some imported
    → All IsTunable imported
unfolding import_profiles
import_profiles-IsTunable fresh n [] imported h e =
    subst (All IsTunable) (some-injective [] imported e) tt
import_profiles-IsTunable fresh n (profile ∷ profiles) imported (h, hs) e =
    elim (Bool-cases (is_unimportable profile)) [
      | inl k ↦ absurd (ground (arith, e, k))
      | inr k ↦ elim (Option-cases (import_profiles fresh (suc n) profiles)) [
        | inl m ↦ absurd (ground (arith, e, k, m))
        | inr (rest, m) ↦
            subst (All IsTunable)
              (some-injective (identified (fresh n) profile ∷ rest) imported
                (ground (arith, e, k, m)))
              (
                imported-IsTunable (fresh n) profile h k,
                import_profiles-IsTunable fresh (suc n) profiles rest hs m,
              )
      ]
    ]

store_imported-IsTunable :
    (s : AppState) (kept : Option (List SystemProfile))
    → All IsTunable s.systems
    → ((ps : List SystemProfile) → kept ≡ some ps → All IsTunable ps)
    → All IsTunable (store_imported s kept).1.systems
unfolding write_document write_decoder_config bump_config_generation
store_imported-IsTunable s none h t = h
store_imported-IsTunable s (some imported) h t =
    subst (All IsTunable) (sym (send_systems-systems imported _))
      (put_systems-IsTunable imported s.systems (t imported refl) h)

pub import_systems-IsTunable :
    (allowed : Bool) (fresh : ℕ → Uuid) (profiles : Option (List SystemProfile)) (s : AppState)
    → HasUploadControl profiles
    → All IsTunable s.systems
    → All IsTunable (import_systems allowed fresh profiles s).1.systems
unfolding import_systems
import_systems-IsTunable false fresh profiles s c h = h
import_systems-IsTunable true fresh none s c h = h
import_systems-IsTunable true fresh (some []) s c h = h
import_systems-IsTunable true fresh (some (profile ∷ profiles)) s c h =
    store_imported-IsTunable s (import_profiles fresh 0 (profile ∷ profiles)) h
      (λ ps. import_profiles-IsTunable fresh 0 (profile ∷ profiles) ps c)
