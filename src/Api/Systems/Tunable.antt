-- ===== src/Api/Systems/Tunable.antt =====
-- The stored systems stay tunable under the handlers of apps/control-plane/src/api.rs.
use trunk_scope.Common.{
  ◌≡◌, refl, inl, inr, Bool, true, false, not, ◌&&◌, ◌||◌, none, some, [], ◌∷◌, arith,
  if◌then◌else◌, Bool-cases, Text, codes, text_eq, text_eq_iff, is_empty, starts_with, id_eq,
  text_key,
}
use mathlib.Core.Path.{subst}
use mathlib.Core.Option.{some-injective}
use trunk_scope.Domain.{Uuid}
use trunk_scope.State.Profiles.{SystemProfile}
use trunk_scope.Api.Systems.{
  Tones, is_p25, is_dmr, is_zero, nac_too_large, is_untunable, normalized, identified, cleared,
  has_modulation, valid_dmr_channel, valid_analog_channel, analog_channel, trunked_system,
}

-- A profile has a name; a trunked one, P25 or DMR, has a control channel, a P25 one besides a network
-- code of at most 0xFFF if any, and one that is not trunked has a frequency.
abbrev pub is_tunable : SystemProfile → Bool
is_tunable p =
    not (is_empty p.name)
    && (if is_p25 p || is_dmr p
        then not (is_zero p.control_channel_hz) && not (is_p25 p && nac_too_large p)
        else not (is_zero p.frequency_hz))

abbrev pub IsTunable : SystemProfile → Type 0
IsTunable p = is_tunable p ≡ true

-- What an `if` that gives a value gives has a property that the value has.
guarded {ℓ} :
    {A : Type ℓ} (P : A → Type 0) (b : Bool) (x k : A)
    → P x
    → (if b then some x else none) ≡ some k
    → P k
guarded P true x k h e = subst P (some-injective x k e) h
guarded P false x k h e = cc

module _ (fresh : Uuid) (p : SystemProfile) (h : is_untunable p ≡ false) where
  cleared-IsTunable : is_p25 p ≡ false → is_dmr p ≡ false → IsTunable (identified fresh (cleared p))
  cleared-IsTunable a b = ground (arith, a, b, h)

  analog-IsTunable :
      (is_p25 p || is_dmr p) ≡ false → IsTunable (identified fresh (analog_channel p))
  analog-IsTunable a = ground (arith, a, h)

  trunked-IsTunable :
      (is_p25 p || is_dmr p) ≡ true → IsTunable (identified fresh (trunked_system p))
  trunked-IsTunable a = ground (arith, a, h)

  not_trunked :
      (protocol : Text)
      → starts_with (codes "p25") protocol ≡ false
      → text_eq protocol (codes "dmr") ≡ false
      → text_eq p.protocol protocol ≡ true
      → (is_p25 p ≡ false) × (is_dmr p ≡ false)
  not_trunked protocol a b e =
      let same = (text_eq_iff p.protocol protocol).0 e in (rw same a, rw same b)

  -- A profile that the checks let through is stored as a tunable one.
  pub normalized-IsTunable :
      (tones : Tones) (k : SystemProfile)
      → normalized tones p ≡ some k
      → IsTunable (identified fresh k)
  unfolding normalized
  normalized-IsTunable tones k e =
      elim (Bool-cases (text_eq p.protocol (codes "conventional-p25"))) [
        | inl c ↦
            let (a, b) = not_trunked (codes "conventional-p25") refl refl c in
            kept (has_modulation (codes "fsk4" ∷ codes "qpsk" ∷ []) p) (cleared p)
              (cleared-IsTunable a b) (ground (arith, e, c))
        | inr c ↦ elim (Bool-cases (text_eq p.protocol (codes "conventional-dmr"))) [
          | inl d ↦
              let (a, b) = not_trunked (codes "conventional-dmr") refl refl d in
              kept (valid_dmr_channel p) (cleared p) (cleared-IsTunable a b)
                (ground (arith, e, c, d))
          | inr d ↦ elim (Bool-cases (is_p25 p || is_dmr p)) [
            | inl t ↦
                kept true (trunked_system p) (trunked-IsTunable t) (ground (arith, e, c, d, t))
            | inr t ↦
                kept (valid_analog_channel tones p) (analog_channel p) (analog-IsTunable t)
                  (ground (arith, e, c, d, t))
          ]
        ]
      ]
    where
      kept :
          (b : Bool) (x : SystemProfile)
          → IsTunable (identified fresh x)
          → (if b then some x else none) ≡ some k
          → IsTunable (identified fresh k)
      kept b x t = guarded (λ (q : SystemProfile). IsTunable (identified fresh q)) b x k t
