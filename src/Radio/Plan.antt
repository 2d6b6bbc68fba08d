-- ===== src/Radio/Plan.antt =====
-- The channel plan's gate on recorded segments, apply_event of apps/control-plane/src/radiod.rs.
use trunk_scope.Common.{
  ℕ, ◌≡◌, refl, sym, ◌∙◌, inl, inr, Bool, false, ◌&&◌, Option, none, some, List, [], ◌∷◌, arith,
  leb, ◌==◌, Bool-cases, Option-cases, is_none_or, unwrap_or, any, find, retain, Text, id_eq,
  text_key,
}
use trunk_scope.Common.Clock.{Time}
use trunk_scope.Common.Float.{F64}
use trunk_scope.Domain.{Uuid, Receiver}
use trunk_scope.State.Profiles.{SystemProfile}
use trunk_scope.State.App.{AppState}
use trunk_scope.Radio.{is_analog_fm}
use trunk_scope.Radio.Events.{
  audio_segment, Arithmetic, min_by, distance, in_reach, tone_matches, channel_tone_allowed,
  apply_segment, apply_event,
}

module _ {ℓ} {A : Type ℓ} (key : A → ℕ) where
  -- What `min_by` gives is in the list, so no test that it passes fails on all.
  min_by-any :
      (p : A → Bool) (xs : List A) (x : A) → min_by key xs ≡ some x → any p xs ≡ false → p x ≡ false
  unfolding min_by
  min_by-any p [] x e h = cc
  min_by-any p (y ∷ ys) x e h = elim (Option-cases (min_by key ys)) [
    | inl k ↦ ground (arith, e, k, h)
    | inr (z, k) ↦ ground (arith, e, k, h, min_by-any p ys z k)
  ]

  any-min_by-none : (p : A → Bool) (xs : List A) → min_by key xs ≡ none → any p xs ≡ false
  unfolding min_by
  any-min_by-none p [] e = refl
  any-min_by-none p (y ∷ ys) e = elim (Option-cases (min_by key ys)) [
    | inl k ↦ ground (arith, e, k)
    | inr (z, k) ↦ ground (arith, e, k)
  ]

  -- Nothing in the list is nearer.
  min_by-leb :
      (bound : ℕ) (xs : List A) (x : A)
      → min_by key xs ≡ some x
      → leb (key x) bound ≡ false
      → any (λ y. leb (key y) bound) xs ≡ false
  unfolding min_by
  min_by-leb bound [] x e h = refl
  min_by-leb bound (y ∷ ys) x e h = elim (Option-cases (min_by key ys)) [
    | inl k ↦ ground (arith, e, k, h, any-min_by-none (λ w. leb (key w) bound) ys k)
    | inr (z, k) ↦ ground (arith, e, k, h, min_by-leb bound ys z k)
  ]

in_reach-distance :
    (tuned : ℕ) (profile : SystemProfile)
    → in_reach tuned profile ≡ leb (distance tuned profile) 25000
in_reach-distance tuned profile = elim (Option-cases profile.frequency_hz) [
  | inl e ↦ rw e refl
  | inr (hz, e) ↦ rw e refl
]

any-ext {ℓ} :
    {A : Type ℓ} (p q : A → Bool) (xs : List A) → ((x : A) → p x ≡ q x) → any p xs ≡ any q xs
any-ext p q [] h = refl
any-ext p q (x ∷ xs) h = ground (arith, h x, any-ext p q xs h)

module _ (x : Arithmetic) (tone_hz : Option F64) (tone_code : Option Text) (tuned : ℕ) where
  -- A profile within 25 kHz that asks for no tone, or for the one heard.
  abbrev pub admits : SystemProfile → Bool
  admits profile =
      in_reach tuned profile && is_none_or profile.tone (tone_matches x tone_hz tone_code)

  gate :
      (systems : List SystemProfile)
      → any admits (retain is_analog_fm systems) ≡ false
      → (any (in_reach tuned) (retain is_analog_fm systems)
          && channel_tone_allowed x tone_hz tone_code tuned systems)
        ≡ false
  unfolding channel_tone_allowed
  gate systems h = elim (Option-cases (min_by (distance tuned) (retain is_analog_fm systems))) [
    | inl e ↦
        ground
          (arith, any-min_by-none (distance tuned) (in_reach tuned) (retain is_analog_fm systems) e)
    | inr (nearest, e) ↦ elim (Bool-cases (in_reach tuned nearest)) [
      | inl k ↦ elim (Option-cases nearest.tone) [
        | inl t ↦ ground (
          arith,
          e,
          k,
          t,
          h,
          min_by-any (distance tuned) admits (retain is_analog_fm systems) nearest e h,
        )
        | inr (tone, t) ↦ ground (
          arith,
          e,
          k,
          t,
          h,
          min_by-any (distance tuned) admits (retain is_analog_fm systems) nearest e h,
        )
      ]
      | inr k ↦ ground (
        arith,
        any-ext (in_reach tuned) (λ p. leb (distance tuned p) 25000) (retain is_analog_fm systems)
            (in_reach-distance tuned),
        min_by-leb (distance tuned) 25000 (retain is_analog_fm systems) nearest e
            (sym (in_reach-distance tuned nearest) ∙ k),
      )
    ]
  ]

-- A recorded segment changes nothing unless an analog profile within 25 kHz of the frequency that
-- the receiver is tuned to asks for no tone or for the one that was heard.
pub apply_event-off_plan :
    (x : Arithmetic) (now : Time) (id session receiver_id : Uuid) (path : Text) (duration_ms : ℕ)
    (tone_hz : Option F64) (tone_code : Option Text) (s : AppState) (receiver : Receiver)
    → find (λ (r : Receiver). r.id == receiver_id) s.receivers ≡ some receiver
    → any
        (admits x tone_hz tone_code
          (unwrap_or receiver.center_frequency_hz s.settings.radio_frequency_hz))
        (retain is_analog_fm s.systems)
      ≡ false
    → apply_event x now id session receiver_id (audio_segment path duration_ms tone_hz tone_code) s
      ≡ s
unfolding apply_event apply_segment
apply_event-off_plan x now id session receiver_id path duration_ms tone_hz tone_code s receiver e
      h =
    rw
      (
        e,
        apply_event,
        gate x tone_hz tone_code
            (unwrap_or receiver.center_frequency_hz s.settings.radio_frequency_hz) s.systems h,
        apply_segment,
      )
      refl
