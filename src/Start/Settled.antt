-- ===== src/Start/Settled.antt =====
-- That the upgrade of stored settings in apps/control-plane/src/state.rs is done once.
use trunk_scope.Common.{
  ℕ, ◌≤◌, ◌≡◌, refl, ap, ◌∙◌, inl, inr, Bool, true, false, arith, ltb, if◌then◌else◌, Bool-cases,
  if_either, id_eq, text_key,
}
use trunk_scope.State.Settings.{AppSettings}
use trunk_scope.Start.Defaults.{Environment}
use trunk_scope.Start.Migration.{
  step, profile_step, address_step, provider_step, upgrade, is_sdrplay_device, sdrplay_defaults,
  migrate,
}
use trunk_scope.Start.Kept.{
  IsUpgrade, IsUpgrade-trans, IsUpgrade-upgrade, IsUpgrade-sdrplay_defaults,
}

-- Settings of the current version stay as they are.
step-current :
    (version : ℕ) (change : AppSettings → AppSettings) (s : AppSettings) (changed : Bool)
    → version ≤ s.schema_version
    → step version change (s, changed) ≡ (s, changed)
step-current version change s changed h =
    let current : ltb s.schema_version version ≡ false = ground (arith, h) in rw current refl

upgrade-current :
    (env : Environment) (s : AppSettings) (changed : Bool)
    → 5 ≤ s.schema_version
    → upgrade env (s, changed) ≡ (s, changed)
unfolding upgrade
upgrade-current env s changed h =
    ap (λ r. step 5 provider_step (step 4 (address_step env) (step 3 profile_step r)))
      (step-current 2 (λ t. t) s changed (omega arith))
    ∙ ap (λ r. step 5 provider_step (step 4 (address_step env) r))
        (step-current 3 profile_step s changed (omega arith))
    ∙ ap (step 5 provider_step) (step-current 4 (address_step env) s changed (omega arith))
    ∙ step-current 5 provider_step s changed h

step-version :
    (version : ℕ) (change : AppSettings → AppSettings) (start : AppSettings × Bool)
    → version ≤ (step version change start).0.schema_version
step-version version change (s, changed) = ground arith

upgrade-version :
    (env : Environment) (start : AppSettings × Bool) → 5 ≤ (upgrade env start).0.schema_version
unfolding upgrade
upgrade-version env start =
    step-version 5 provider_step
      (step 4 (address_step env) (step 3 profile_step (step 2 (λ t. t) start)))

sdrplay_defaults-version :
    (start : AppSettings × Bool)
    → (sdrplay_defaults start).0.schema_version ≡ start.0.schema_version
unfolding sdrplay_defaults
sdrplay_defaults-version (s, changed) =
    if_either (λ (r : AppSettings × Bool). r.0.schema_version ≡ s.schema_version)
      (is_sdrplay_device s) _ _ refl refl

sdrplay_defaults_idem :
    (start : AppSettings × Bool)
    → sdrplay_defaults ((sdrplay_defaults start).0, false) ≡ ((sdrplay_defaults start).0, false)
unfolding sdrplay_defaults is_sdrplay_device
sdrplay_defaults_idem (s, changed) = elim (Bool-cases (is_sdrplay_device s)) [
  | inl e ↦ rw (e, sdrplay_defaults) (ground arith)
  | inr e ↦ rw (e, sdrplay_defaults) (ground (arith, e))
]

step-agc :
    (version : ℕ) (change : AppSettings → AppSettings) (start : AppSettings × Bool)
    → (change start.0).radio_agc ≡ start.0.radio_agc
    → (step version change start).0.radio_agc ≡ start.0.radio_agc
step-agc version change (s, changed) h =
    if_either (λ (r : AppSettings × Bool). r.0.radio_agc ≡ s.radio_agc)
      (ltb s.schema_version version) (record (change s) { schema_version = version }, true)
      (s, changed) h refl

upgrade-agc :
    (env : Environment) (s : AppSettings) → (upgrade env (s, false)).0.radio_agc ≡ s.radio_agc
unfolding upgrade
upgrade-agc env s =
    let second = step 2 (λ t. t) (s, false) in
    let third = step 3 profile_step second in
    let fourth = step 4 (address_step env) third in
    step-agc 5 provider_step fourth refl
    ∙ step-agc 4 (address_step env) third refl
    ∙ step-agc 3 profile_step second refl
    ∙ step-agc 2 (λ t. t) (s, false) refl

sdrplay_defaults-agc :
    (start : AppSettings × Bool)
    → (sdrplay_defaults start).0.radio_agc
      ≡ (if is_sdrplay_device start.0 then false else start.0.radio_agc)
unfolding sdrplay_defaults
sdrplay_defaults-agc (s, changed) = elim (Bool-cases (is_sdrplay_device s)) [
  | inl e ↦ rw (e, sdrplay_defaults) refl
  | inr e ↦ rw (e, sdrplay_defaults) refl
]

migrate-agc :
    (env : Environment) (s : AppSettings)
    → (migrate env s).0.radio_agc ≡ (if is_sdrplay_device s then false else s.radio_agc)
unfolding migrate is_sdrplay_device
migrate-agc env s =
    let upgraded = upgrade env (s, false) in
    let device : upgraded.0.radio_device ≡ s.radio_device =
      ap (λ (t : AppSettings). t.radio_device) (IsUpgrade-upgrade env s).0 in
    sdrplay_defaults-agc upgraded ∙ rw (device, upgrade-agc env s) refl

-- A start upgrades the stored settings to version 5 at least, keeps every text, bandwidth and gain
-- that is set, switches the automatic gain control off for an SDRplay and keeps it otherwise, and
-- keeps all settings but those; the next start, in any environment, changes nothing any more and
-- does not write the settings.
pub migrate-settled :
    (env later : Environment) (s : AppSettings)
    → IsUpgrade s (migrate env s).0
      × ((migrate env s).0.radio_agc ≡ (if is_sdrplay_device s then false else s.radio_agc))
      × (5 ≤ (migrate env s).0.schema_version)
      × (migrate later (migrate env s).0 ≡ ((migrate env s).0, false))
unfolding migrate
migrate-settled env later s =
    let upgraded = upgrade env (s, false) in
    let version : 5 ≤ (sdrplay_defaults upgraded).0.schema_version =
      omega (arith, upgrade-version env (s, false), sdrplay_defaults-version upgraded) in
    (
      IsUpgrade-trans s upgraded.0 (sdrplay_defaults upgraded).0 (IsUpgrade-upgrade env s)
          (IsUpgrade-sdrplay_defaults upgraded),
      migrate-agc env s,
      version,
      ap sdrplay_defaults (upgrade-current later (sdrplay_defaults upgraded).0 false version)
          ∙ sdrplay_defaults_idem upgraded,
    )
