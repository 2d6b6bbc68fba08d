-- ===== src/Api/Tuning.antt =====
-- p25_control_channels, tuning_span, systems_for_receiver and the tuned part of build_decoder_source
-- of apps/control-plane/src/api.rs: the centre, the rate and the frequencies out of reach.
pub mod Coverage
use trunk_scope.Common.{
  ℕ, ◌+◌, ◌-◌, ◌*◌, ◌/◌, ◌^◌, min, max, Bool, true, false, not, ◌&&◌, ◌||◌, Option, none, some,
  List, [], ◌∷◌, ◌++◌, arith, ltb, ◌==◌, if◌then◌else◌, is_none_or, unwrap_or, any, retain, Text,
  codes, text_eq, is_empty, to_ascii_lowercase, contains, id_eq, text_key, Eq,
}
use trunk_scope.Domain.{Uuid, Receiver, is_sdrplay}
use trunk_scope.State.Profiles.{SystemProfile, SystemSite}
use trunk_scope.State.Settings.{AppSettings}

-- `saturating_add` of `u64`.
abbrev pub saturating_add : ℕ → ℕ → ℕ
saturating_add a b = min (2 ^ 64 - 1) (a + b)

unfoldable pub flat_map {ℓ κ} : {A : Type ℓ} {B : Type κ} → (A → List B) → List A → List B
flat_map f [] = []
flat_map f (x ∷ xs) = f x ++ flat_map f xs

abbrev pub option_list : Option ℕ → List ℕ
option_list none = []
option_list (some n) = n ∷ []

unfoldable pub p25_control_channels : SystemProfile → Option Text → List ℕ
unfolding contains to_ascii_lowercase flat_map
p25_control_channels system site_filter =
    let selected =
      retain
        (λ (site : SystemSite).
          is_none_or site_filter (λ filter. contains filter (to_ascii_lowercase site.name)))
        system.sites in
    let site_channels = flat_map (λ (site : SystemSite). site.control_channels_hz) selected in
    if not (is_empty site_channels)
    then site_channels
    else if is_empty system.control_channels_hz
    then option_list system.control_channel_hz
    else system.control_channels_hz

-- `iter().min()` and `iter().max()`.
unfoldable pub least : List ℕ → Option ℕ
least [] = none
least (x ∷ xs) = some (elim (least xs) [ none ↦ x | some m ↦ min x m ])

unfoldable pub greatest : List ℕ → Option ℕ
greatest [] = none
greatest (x ∷ xs) = some (elim (greatest xs) [ none ↦ x | some m ↦ max x m ])

abbrev zip_with : (ℕ → ℕ → ℕ) → Option ℕ → Option ℕ → Option ℕ
zip_with f (some low) (some high) = some (f low high)
zip_with f _ _ = none

-- The sum, which the code does not saturate, is taken to be below 2 ^ 64.
unfoldable pub tuning_span : List ℕ → Option ℕ × Option ℕ
unfolding least greatest
tuning_span frequencies = (
  zip_with (λ low high. (low + high) / 2) (least frequencies) (greatest frequencies),
  zip_with (λ low high. saturating_add (high - low) 500000) (least frequencies)
      (greatest frequencies),
)

abbrev id_is : Uuid → Option Uuid → Bool
id_is id none = false
id_is id (some other) = other == id

abbrev is_none : Option Uuid → Bool
is_none none = true
is_none (some _) = false

unfoldable pub systems_for_receiver : Uuid → Option Uuid → List SystemProfile → List SystemProfile
systems_for_receiver receiver_id default_receiver_id = retain λ (system : SystemProfile).
    system.enabled
    && (id_is receiver_id system.receiver_id
        || (is_none system.receiver_id && id_is receiver_id default_receiver_id))

unfoldable pub is_trunked : SystemProfile → Bool
unfolding text_eq
is_trunked system = text_eq system.protocol (codes "p25") || text_eq system.protocol (codes "dmr")

abbrev pub is_conventional : SystemProfile → Bool
is_conventional system =
    text_eq system.protocol (codes "analog-fm")
    || text_eq system.protocol (codes "conventional-p25")
    || text_eq system.protocol (codes "conventional-dmr")

unfoldable pub all_tuning : List SystemProfile → Option Text → List ℕ
unfolding flat_map p25_control_channels is_trunked text_eq
all_tuning assigned site_filter =
    flat_map (λ system. p25_control_channels system site_filter)
      (retain (λ (system : SystemProfile). system.enabled && is_trunked system) assigned)
    ++ flat_map (λ (system : SystemProfile). option_list system.frequency_hz)
        (retain is_conventional assigned)

-- `has_p25 || has_dmr`.
abbrev has_trunked : List SystemProfile → Bool
has_trunked = any λ (system : SystemProfile).
    text_eq system.protocol (codes "p25")
    || text_eq system.protocol (codes "dmr")
    || text_eq system.protocol (codes "conventional-dmr")

abbrev requested_rate : Receiver → AppSettings → List SystemProfile → Option ℕ → ℕ
requested_rate receiver settings assigned span =
    max (max (unwrap_or span 0) (if has_trunked assigned then 6000000 else 0))
      (unwrap_or receiver.sample_rate_hz settings.radio_sample_rate_hz)

abbrev rate_of : Bool → ℕ → ℕ
rate_of true requested = max requested 6000000
rate_of false requested = (requested + 23999) / 24000 * 24000

pub record Tuning : Type 0 where
  pub center : ℕ
  pub rate : ℕ
  pub planned_frequencies : List ℕ
  pub uncovered_frequencies : List ℕ

abbrev uncovered : ℕ → ℕ → List ℕ → List ℕ
uncovered center rate = retain λ frequency.
    ltb frequency (center - rate / 2) || ltb (saturating_add center (rate / 2)) frequency

unfoldable pub build_decoder_source :
    Receiver → AppSettings → List SystemProfile → Option Text → Tuning
unfolding all_tuning tuning_span text_eq
build_decoder_source receiver settings assigned site_filter =
    let planned = all_tuning assigned site_filter in
    let (requested_center, requested_span) = tuning_span planned in
    let center =
      unwrap_or requested_center
        (unwrap_or receiver.center_frequency_hz settings.radio_frequency_hz) in
    let rate =
      rate_of (is_sdrplay receiver.driver)
        (requested_rate receiver settings assigned requested_span) in
    record {
      center = center;
      rate = rate;
      planned_frequencies = planned;
      uncovered_frequencies = uncovered center rate planned;
    }
