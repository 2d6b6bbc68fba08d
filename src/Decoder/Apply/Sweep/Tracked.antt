-- ===== src/Decoder/Apply/Sweep/Tracked.antt =====
-- The tracked calls that the sweep of apps/control-plane/src/decoder.rs goes through.
use trunk_scope.Common.{
  ◌≡◌, refl, sym, ◌⊎◌, inl, inr, true, false, List, [], ◌∷◌, map, arith, ◌==◌, ==_refl, Bool-cases,
  any, retain, All, remove, id_eq, text_key,
}
use mathlib.Core.Path.{subst}
use trunk_scope.Common.Clock.{Time}
use trunk_scope.Domain.{Uuid}
use trunk_scope.Decoder.Apply.{is_stale}

-- Each stale entry's call is among the ids.
abbrev pub Covered : Time → List Uuid → List (Uuid × Time) → Type 0
Covered now ids entries =
    All (λ (e : Uuid × Time). is_stale now e ≡ true → any (λ i. i == e.0) ids ≡ true) entries

abbrev key_of : Uuid × Time → Uuid
key_of entry = entry.0

Covered-cons :
    (now : Time) (id : Uuid) (ids : List Uuid) (entries : List (Uuid × Time))
    → Covered now ids entries
    → Covered now (id ∷ ids) entries
Covered-cons now id ids [] h = tt
Covered-cons now id ids (e ∷ entries) (p, h) =
    (λ s. ground (arith, p s), Covered-cons now id ids entries h)

abbrev pub stale_keys : Time → List (Uuid × Time) → List Uuid
stale_keys now entries = map key_of (retain (is_stale now) entries)

stale_keys-cons :
    (now : Time) (e : Uuid × Time) (entries : List (Uuid × Time))
    → ((is_stale now e ≡ true) × (stale_keys now (e ∷ entries) ≡ e.0 ∷ stale_keys now entries))
      ⊎ ((is_stale now e ≡ false) × (stale_keys now (e ∷ entries) ≡ stale_keys now entries))
stale_keys-cons now e entries = elim (Bool-cases (is_stale now e)) [
  | inl s ↦ inl (s, rw s refl)
  | inr s ↦ inr (s, rw s refl)
]

pub Covered-stale :
    (now : Time) (entries : List (Uuid × Time)) → Covered now (stale_keys now entries) entries
Covered-stale now [] = tt
Covered-stale now (e ∷ entries) = elim (stale_keys-cons now e entries) [
  | inl (s, q) ↦
      subst (λ ks. Covered now ks (e ∷ entries)) (sym q)
        (
          λ h. any_first e.0 (stale_keys now entries),
          Covered-cons now e.0 (stale_keys now entries) entries (Covered-stale now entries),
        )
  | inr (s, q) ↦
      subst (λ ks. Covered now ks (e ∷ entries)) (sym q)
        (contradiction s, Covered-stale now entries)
]
  where
    any_first : (i : Uuid) (ids : List Uuid) → any (λ k. k == i) (i ∷ ids) ≡ true
    any_first i ids = ground (arith, ==_refl i)

    contradiction :
        (is_stale now e ≡ false)
        → is_stale now e ≡ true
        → any (λ i. i == e.0) (stale_keys now entries) ≡ true
    contradiction s h = cc

pub Covered-remove :
    (now : Time) (id : Uuid) (ids : List Uuid) (entries : List (Uuid × Time))
    → Covered now (id ∷ ids) entries
    → Covered now ids (remove id entries)
unfolding remove
Covered-remove now id ids [] h = tt
Covered-remove now id ids ((j, seen) ∷ entries) (p, h) = elim (Bool-cases (j == id)) [
  | inl e ↦ rw e (Covered-remove now id ids entries h)
  | inr e ↦ rw e (λ s. ground (arith, p s), Covered-remove now id ids entries h)
]

pub Covered-nil :
    (now : Time) (entries : List (Uuid × Time))
    → Covered now [] entries
    → any (is_stale now) entries ≡ false
Covered-nil now [] h = refl
Covered-nil now (e ∷ entries) (p, h) = elim (Bool-cases (is_stale now e)) [
  | inl s ↦ cc (p s)
  | inr s ↦ rw s (Covered-nil now entries h)
]
