-- ===== src/Start/Kept.antt =====
-- What the upgrade of stored settings in apps/control-plane/src/state.rs keeps.
use trunk_scope.Common.{
  ℕ, ◌≡◌, refl, ap, ◌∙◌, Bool, true, false, Option, none, some, List, [], ◌∷◌, ltb, if_either,
  unwrap_or, drop, Text, is_empty, id_eq, text_key,
}
use trunk_scope.State.Settings.{AppSettings}
use trunk_scope.Start.Defaults.{Environment}
use trunk_scope.Start.Migration.{
  step, or_filled, profile_step, address_step, provider_step, upgrade, is_sdrplay_device,
  sdrplay_defaults,
}

-- The text that a setting had stays, unless it was empty.
abbrev Keeps : Text → Text → Type 0
Keeps before after = is_empty before ≡ false → after ≡ before

Keeps-or_filled : (value default : Text) → Keeps value (or_filled value default)
Keeps-or_filled value default h = rw h refl

-- The settings without those that an upgrade may write; the texts, the bandwidth and the gain are
-- looked at below.
abbrev others : AppSettings → AppSettings
others s = record s {
  schema_version = 0;
  ai_profile = [];
  transcribe_url = [];
  summary_url = [];
  geocoder_url = [];
  discord_webhook_url = [];
  site_filter = [];
  geocoder_provider = [];
  transcribe_provider = [];
  summary_provider = [];
  radio_bandwidth_hz = none;
  radio_gain_db = none;
  radio_agc = false;
}

-- The texts that an upgrade may fill.
abbrev filled_texts : AppSettings → List Text
filled_texts s =
    s.ai_profile ∷ s.transcribe_url ∷ s.summary_url ∷ s.geocoder_url ∷ s.discord_webhook_url
    ∷ s.site_filter ∷ s.geocoder_provider ∷ s.transcribe_provider ∷ s.summary_provider ∷ []

abbrev KeepsAll : List Text → List Text → Type 0
KeepsAll [] [] = Unit
KeepsAll (a ∷ before) (b ∷ after) = Keeps a b × KeepsAll before after
KeepsAll _ _ = ⊥

abbrev KeepsNumber : Option ℕ → Option ℕ → Type 0
KeepsNumber before after = (n : ℕ) → before ≡ some n → after ≡ some n

-- An upgraded version of settings: what an upgrade does not write stays, and so does each text
-- that is not empty, and a bandwidth and a gain that are set. The version and the automatic gain
-- control may change.
abbrev pub IsUpgrade : AppSettings → AppSettings → Type 0
IsUpgrade s t =
    (others t ≡ others s)
    × KeepsAll (filled_texts s) (filled_texts t)
    × KeepsNumber s.radio_bandwidth_hz t.radio_bandwidth_hz
    × KeepsNumber s.radio_gain_db t.radio_gain_db

KeepsAll-refl : (texts : List Text) → KeepsAll texts texts
KeepsAll-refl [] = tt
KeepsAll-refl (a ∷ texts) = (λ h. refl, KeepsAll-refl texts)

Keeps-trans : (a b c : Text) → Keeps a b → Keeps b c → Keeps a c
Keeps-trans a b c h k e = k (ap is_empty (h e) ∙ e) ∙ h e

KeepsAll-trans : (a b c : List Text) → KeepsAll a b → KeepsAll b c → KeepsAll a c
KeepsAll-trans [] [] [] h k = tt
KeepsAll-trans (x ∷ a) (y ∷ b) (z ∷ c) (h, hs) (k, ks) =
    (Keeps-trans x y z h k, KeepsAll-trans a b c hs ks)
KeepsAll-trans [] [] (z ∷ c) h k = absurd k
KeepsAll-trans [] (y ∷ b) c h k = absurd h
KeepsAll-trans (x ∷ a) [] c h k = absurd h
KeepsAll-trans (x ∷ a) (y ∷ b) [] h k = absurd k

IsUpgrade-refl : (s : AppSettings) → IsUpgrade s s
IsUpgrade-refl s = (refl, KeepsAll-refl (filled_texts s), λ n e. e, λ n e. e)

pub IsUpgrade-trans : (s t u : AppSettings) → IsUpgrade s t → IsUpgrade t u → IsUpgrade s u
IsUpgrade-trans s t u (h0, h1, h2, h3) (k0, k1, k2, k3) = (
  k0 ∙ h0,
  KeepsAll-trans (filled_texts s) (filled_texts t) (filled_texts u) h1 k1,
  λ n e. k2 n (h2 n e),
  λ n e. k3 n (h3 n e),
)

IsUpgrade-step :
    (version : ℕ) (change : AppSettings → AppSettings) (start : AppSettings × Bool)
    → IsUpgrade start.0 (change start.0)
    → IsUpgrade start.0 (step version change start).0
IsUpgrade-step version change (s, changed) h =
    if_either (λ (r : AppSettings × Bool). IsUpgrade s r.0) (ltb s.schema_version version)
      (record (change s) { schema_version = version }, true) (s, changed) h (IsUpgrade-refl s)

IsUpgrade-profile_step : (s : AppSettings) → IsUpgrade s (profile_step s)
IsUpgrade-profile_step s = (
  refl,
  (
    Keeps-or_filled s.ai_profile _,
    (Keeps-or_filled s.transcribe_url _, KeepsAll-refl (drop 2 (filled_texts s))),
  ),
  λ n e. e,
  λ n e. e,
)

IsUpgrade-address_step : (env : Environment) (s : AppSettings) → IsUpgrade s (address_step env s)
IsUpgrade-address_step env s = (
  refl,
  (
    λ h. refl,
    (
      λ h. refl,
      (
        Keeps-or_filled s.summary_url _,
        (
          Keeps-or_filled s.geocoder_url _,
          (
            Keeps-or_filled s.discord_webhook_url _,
            (
              Keeps-or_filled s.site_filter _,
              (Keeps-or_filled s.geocoder_provider _, KeepsAll-refl (drop 7 (filled_texts s))),
            ),
          ),
        ),
      ),
    ),
  ),
  λ n e. e,
  λ n e. e,
)

IsUpgrade-provider_step : (s : AppSettings) → IsUpgrade s (provider_step s)
IsUpgrade-provider_step s = (
  refl,
  (
    λ h. refl,
    (
      λ h. refl,
      (
        λ h. refl,
        (
          λ h. refl,
          (
            λ h. refl,
            (
              λ h. refl,
              (
                λ h. refl,
                (
                  Keeps-or_filled s.transcribe_provider _,
                  (Keeps-or_filled s.summary_provider _, tt),
                ),
              ),
            ),
          ),
        ),
      ),
    ),
  ),
  λ n e. e,
  λ n e. e,
)

pub IsUpgrade-upgrade :
    (env : Environment) (s : AppSettings) → IsUpgrade s (upgrade env (s, false)).0
unfolding upgrade
IsUpgrade-upgrade env s =
    let second = step 2 (λ t. t) (s, false) in
    let third = step 3 profile_step second in
    let fourth = step 4 (address_step env) third in
    let fifth = step 5 provider_step fourth in
    IsUpgrade-trans s second.0 fifth.0 (IsUpgrade-step 2 (λ t. t) (s, false) (IsUpgrade-refl s)) (
      IsUpgrade-trans second.0 third.0 fifth.0
        (IsUpgrade-step 3 profile_step second (IsUpgrade-profile_step second.0))
        (IsUpgrade-trans third.0 fourth.0 fifth.0
          (IsUpgrade-step 4 (address_step env) third (IsUpgrade-address_step env third.0))
          (IsUpgrade-step 5 provider_step fourth (IsUpgrade-provider_step fourth.0))))

KeepsNumber-unwrap_or : (o : Option ℕ) (default : ℕ) → KeepsNumber o (some (unwrap_or o default))
KeepsNumber-unwrap_or o default n e = rw e refl

pub IsUpgrade-sdrplay_defaults :
    (start : AppSettings × Bool) → IsUpgrade start.0 (sdrplay_defaults start).0
unfolding sdrplay_defaults
IsUpgrade-sdrplay_defaults (s, changed) =
    if_either (λ (r : AppSettings × Bool). IsUpgrade s r.0) (is_sdrplay_device s) _ _
      (
        refl,
        KeepsAll-refl (filled_texts s),
        KeepsNumber-unwrap_or s.radio_bandwidth_hz 1800000,
        KeepsNumber-unwrap_or s.radio_gain_db 0x4220_0000,
      )
      (IsUpgrade-refl s)
