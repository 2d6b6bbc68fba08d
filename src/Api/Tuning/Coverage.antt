-- ===== src/Api/Tuning/Coverage.antt =====
-- The source that build_decoder_source of apps/control-plane/src/api.rs plans reaches every frequency.
use trunk_scope.Common.{
  ℕ, ◌+◌, ◌-◌, ◌/◌, ◌%◌, ◌^◌, ◌≤◌, ◌<◌, min, max, ◌≡◌, refl, sym, Bool, true, false, ◌||◌, Option,
  some, List, [], ◌∷◌, arith, ltb, leb, ◌==◌, if◌then◌else◌, unwrap_or, All, Text, id_eq, text_key,
}
use mathlib.Core.Path.{subst}
use trunk_scope.Domain.{Receiver, is_sdrplay}
use trunk_scope.State.Profiles.{SystemProfile}
use trunk_scope.State.Settings.{AppSettings}
use trunk_scope.Api.Tuning.{
  saturating_add, least, greatest, tuning_span, all_tuning, build_decoder_source, uncovered,
  rate_of, requested_rate,
}

-- Every frequency lies between two bounds.
abbrev Between : ℕ → ℕ → List ℕ → Type 0
Between low high = All (λ f. (low ≤ f) × (f ≤ high))

least-cons : (f low : ℕ) (fs : List ℕ) → least fs ≡ some low → least (f ∷ fs) ≡ some (min f low)
unfolding least
least-cons f low fs e = rw (e, least) refl

greatest-cons :
    (f high : ℕ) (fs : List ℕ) → greatest fs ≡ some high → greatest (f ∷ fs) ≡ some (max f high)
unfolding greatest
greatest-cons f high fs e = rw (e, greatest) refl

Between-wider :
    (low high a b : ℕ) (fs : List ℕ) → a ≤ low → high ≤ b → Between low high fs → Between a b fs
Between-wider low high a b [] h k between = tt
Between-wider low high a b (f ∷ fs) h k ((l, u), between) =
    ((omega arith, omega arith), Between-wider low high a b fs h k between)

extremes :
    (f : ℕ) (fs : List ℕ)
    → (low : ℕ) × (high : ℕ) × (least (f ∷ fs) ≡ some low)
      × (greatest (f ∷ fs) ≡ some high)
      × Between low high (f ∷ fs)
      × ((bound : ℕ) → All (λ g. g < bound) (f ∷ fs) → high < bound)
unfolding least greatest
extremes f [] = (f, f, refl, refl, ((omega arith, omega arith), tt), λ bound h. h.0)
extremes f (g ∷ fs) = widen (extremes g fs)
  where
    largest : (a b bound : ℕ) → a < bound → b < bound → max a b < bound
    largest a b bound h k = omega arith

    widen :
        ((low : ℕ) × (high : ℕ) × (least (g ∷ fs) ≡ some low)
          × (greatest (g ∷ fs) ≡ some high)
          × Between low high (g ∷ fs)
          × ((bound : ℕ) → All (λ i. i < bound) (g ∷ fs) → high < bound))
        → (low : ℕ) × (high : ℕ) × (least (f ∷ g ∷ fs) ≡ some low)
          × (greatest (f ∷ g ∷ fs) ≡ some high)
          × Between low high (f ∷ g ∷ fs)
          × ((bound : ℕ) → All (λ i. i < bound) (f ∷ g ∷ fs) → high < bound)
    widen (low, high, l, h, between, top) = (
      min f low,
      max f high,
      least-cons f low (g ∷ fs) l,
      greatest-cons f high (g ∷ fs) h,
      (
        (omega arith, omega arith),
        Between-wider low high (min f low) (max f high) (g ∷ fs) (omega arith) (omega arith)
            between,
      ),
      λ bound (k, ks). largest f high bound k (top bound ks),
    )

-- Frequencies at most half a rate away from the centre are covered.
uncovered_none :
    (low high rate : ℕ) (fs : List ℕ)
    → saturating_add (high - low) 500000 ≤ rate
    → high < 2 ^ 62
    → Between low high fs
    → uncovered ((low + high) / 2) rate fs ≡ []
uncovered_none low high rate [] h k between = refl
uncovered_none low high rate (f ∷ fs) h k ((l, u), between) =
    rw inside (uncovered_none low high rate fs h k between)
  where
    inside :
        (ltb f ((low + high) / 2 - rate / 2)
          || ltb (saturating_add ((low + high) / 2) (rate / 2)) f)
        ≡ false
    inside = ground arith

tuning_span-some :
    (fs : List ℕ) (low high : ℕ)
    → least fs ≡ some low
    → greatest fs ≡ some high
    → tuning_span fs ≡ (some ((low + high) / 2), some (saturating_add (high - low) 500000))
unfolding tuning_span
tuning_span-some fs low high l u = rw (l, tuning_span) (rw (u, tuning_span) refl)

-- Where every planned frequency is below 2 ^ 62 Hz, the source reaches all of them. Its rate is at
-- least 6 MHz for an SDRplay, and a multiple of 24 kHz for any other driver.
pub build_decoder_source-covers :
    (receiver : Receiver) (settings : AppSettings) (assigned : List SystemProfile)
    (site_filter : Option Text)
    → All (λ f. f < 2 ^ 62) (all_tuning assigned site_filter)
    → ((build_decoder_source receiver settings assigned site_filter).uncovered_frequencies ≡ [])
      × ((if is_sdrplay receiver.driver
            then leb 6000000 (build_decoder_source receiver settings assigned site_filter).rate
            else (build_decoder_source receiver settings assigned site_filter).rate % 24000 == 0)
          ≡ true)
unfolding build_decoder_source
build_decoder_source-covers receiver settings assigned site_filter h =
    (reached (all_tuning assigned site_filter) h, usable (is_sdrplay receiver.driver) _)
  where
    multiple : (requested : ℕ) → rate_of false requested % 24000 ≡ 0
    multiple requested = omega arith

    usable :
        (b : Bool) (requested : ℕ)
        → (if b then leb 6000000 (rate_of b requested) else rate_of b requested % 24000 == 0) ≡ true
    usable true requested = ground arith
    usable false requested = ground (arith, multiple requested)

    wide : (b : Bool) (requested : ℕ) → requested ≤ rate_of b requested
    wide true requested = omega arith
    wide false requested = omega arith

    requests : (span : ℕ) → span ≤ requested_rate receiver settings assigned (some span)
    requests span = omega arith

    reached :
        (fs : List ℕ)
        → All (λ f. f < 2 ^ 62) fs
        → uncovered
            (unwrap_or
              (tuning_span fs).0
              (unwrap_or receiver.center_frequency_hz settings.radio_frequency_hz))
            (rate_of
              (is_sdrplay receiver.driver)
              (requested_rate receiver settings assigned (tuning_span fs).1))
            fs
          ≡ []
    reached [] k = refl
    reached (f ∷ fs) k =
        let (low, high, l, u, between, top) = extremes f fs in
        subst
          (λ (r : Option ℕ × Option ℕ).
            uncovered
              (unwrap_or r.0 (unwrap_or receiver.center_frequency_hz settings.radio_frequency_hz))
              (rate_of (is_sdrplay receiver.driver) (requested_rate receiver settings assigned r.1))
              (f ∷ fs)
            ≡ [])
          (sym (tuning_span-some (f ∷ fs) low high l u))
          (uncovered_none low high
            (rate_of (is_sdrplay receiver.driver) (
              requested_rate receiver settings assigned
                (some (saturating_add (high - low) 500000))))
            (f ∷ fs)
            (omega (
              arith,
              wide (is_sdrplay receiver.driver) (
                  requested_rate receiver settings assigned
                    (some (saturating_add (high - low) 500000))),
              requests (saturating_add (high - low) 500000),
            ))
            (top (2 ^ 62) k) between)
