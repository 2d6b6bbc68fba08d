-- ===== src/Api/Policy/Sync.antt =====
-- The published policy and the settings of apps/control-plane/src/api.rs agree.
use trunk_scope.Common.{
  ◌≡◌, refl, sym, ap, ◌∙◌, inl, inr, Bool, true, false, ◌&&◌, ◌||◌, none, arith, Bool-cases,
  Option-cases, Text, codes, is_empty, trim, id_eq, text_key,
}
use trunk_scope.Common.Float.{F64}
use trunk_scope.Common.Clock.{Time}
use trunk_scope.Domain.{PublicationPolicy}
use trunk_scope.Domain.Policy.{validate}
use trunk_scope.State.Settings.{AppSettings}
use trunk_scope.State.App.{AppState, Command, persist, write_document}
use trunk_scope.State.Calls.{audit}
use trunk_scope.State.Pipeline.{bump_config_generation}
use trunk_scope.Api.Policy.{
  refused_station, refused_models, refused_delay, refused_refresh, refused_feed, refused_rest,
  policy_of, with_policy, store_settings, is_refused, save_public_policy, save_settings,
}

persist-frame :
    (c : Command) (s : AppState)
    → ((persist c s).public_policy ≡ s.public_policy) × ((persist c s).settings ≡ s.settings)
unfolding persist
persist-frame c s = elim (Option-cases s.persistence) [
  | inl e ↦ (rw (e, persist) refl, rw (e, persist) refl)
  | inr (sent, e) ↦ (rw (e, persist) refl, rw (e, persist) refl)
]

audit-frame :
    (now : Time) (action resource_type resource_id : Text) (s : AppState)
    → ((audit now action resource_type resource_id s).public_policy ≡ s.public_policy)
      × ((audit now action resource_type resource_id s).settings ≡ s.settings)
unfolding audit write_document
audit-frame now action resource_type resource_id s = persist-frame _ _

store_settings-frame :
    (settings : AppSettings) (s : AppState)
    → ((store_settings settings s).public_policy ≡ s.public_policy)
      × ((store_settings settings s).settings ≡ settings)
unfolding write_document
store_settings-frame settings s = persist-frame _ _

-- Whatever the request, saving a policy keeps the published policy the one of the settings.
pub save_public_policy-policy_of :
    (allowed : Bool) (now : Time) (policy : PublicationPolicy) (s : AppState)
    → s.public_policy ≡ policy_of s.settings
    → (save_public_policy allowed now policy s).1.public_policy
      ≡ policy_of (save_public_policy allowed now policy s).1.settings
unfolding save_public_policy
save_public_policy-policy_of false now policy s h = h
save_public_policy-policy_of true now policy s h =
    elim (Bool-cases (policy.enabled && is_empty policy.allowed_talkgroups)) [
      | inl e ↦ rw e h
      | inr e ↦ rw e (
          saved (store_settings (with_policy policy s.settings) s)
            (store_settings-frame (with_policy policy s.settings) s).1)
    ]
  where
    saved :
        (t : AppState)
        → t.settings ≡ with_policy policy s.settings
        → (audit now
            (codes "policy.update")
            (codes "public-policy")
            (codes "default")
            (record t { public_policy = policy })).public_policy
          ≡ policy_of
              (audit now
                (codes "policy.update")
                (codes "public-policy")
                (codes "default")
                (record t { public_policy = policy })).settings
    saved t q =
        let (same, unchanged) =
          audit-frame now (codes "policy.update") (codes "public-policy") (codes "default")
            (record t { public_policy = policy }) in
        same ∙ sym (ap policy_of (unchanged ∙ q))

is_refused-validate :
    (in_range : F64 → F64 → Bool) (settings : AppSettings)
    → is_refused in_range settings ≡ false
    → validate (policy_of (record settings { home_label = trim settings.home_label })) ≡ none
unfolding is_refused validate
is_refused-validate in_range settings e =
    let (delay, feed) =
      both (refused_station in_range settings) (refused_models settings) (refused_delay settings)
        (refused_refresh settings) (refused_feed settings) (refused_rest settings) e in
    rw feed (rw delay refl)
  where
    both :
        (a b delay refresh feed rest : Bool)
        → (a || b || delay || refresh || feed || rest) ≡ false
        → (delay ≡ false) × (feed ≡ false)
    both a b delay refresh feed rest h = ground arith

-- Saving settings, from a state whose published policy is valid and the one of the settings,
-- keeps it both.
pub save_settings-validate :
    (in_range : F64 → F64 → Bool) (allowed : Bool) (settings : AppSettings) (s : AppState)
    → s.public_policy ≡ policy_of s.settings
    → validate s.public_policy ≡ none
    → ((save_settings in_range allowed settings s).1.public_policy
        ≡ policy_of (save_settings in_range allowed settings s).1.settings)
      × (validate (save_settings in_range allowed settings s).1.public_policy ≡ none)
unfolding save_settings bump_config_generation
save_settings-validate in_range false settings s h v = (h, v)
save_settings-validate in_range true settings s h v =
    elim (Bool-cases (is_refused in_range settings)) [
      | inl e ↦ rw e (h, v)
      | inr e ↦ rw e (
          saved (record settings { home_label = trim settings.home_label })
            (is_refused-validate in_range settings e))
    ]
  where
    saved :
        (current : AppSettings)
        → validate (policy_of current) ≡ none
        → ((bump_config_generation (
              store_settings current
                (record s { public_policy = policy_of current }))).public_policy
            ≡ policy_of
                (bump_config_generation (
                  store_settings current
                    (record s { public_policy = policy_of current }))).settings)
          × (validate
                (bump_config_generation (
                  store_settings current
                    (record s { public_policy = policy_of current }))).public_policy
              ≡ none)
    saved current k =
        let (same, stored) =
          store_settings-frame current (record s { public_policy = policy_of current }) in
        (same ∙ sym (ap policy_of stored), ap validate same ∙ k)
