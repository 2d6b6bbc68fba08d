-- ===== src/Scanner/Order.antt =====
-- The order in which next_channel of apps/control-plane/src/scanner.rs visits the channels.
use trunk_scope.Common.{
  ℕ, zero, suc, ◌+◌, ◌-◌, ◌%◌, ◌≤◌, ◌<◌, ◌≡◌, refl, ap, ◌∙◌, ◌⊎◌, inl, inr, true, false, Option,
  none, some, List, [], ◌∷◌, arith, ◌==◌, Bool-cases, length, get_elem?, All, id_eq, text_key,
}
use native.Mathlib.Nat.{mod-lt, mod-eq_of_lt, add-mod_right}
use trunk_scope.State.Profiles.{ScanChannel, ScanList}
use trunk_scope.Scanner.{indices, first_unlocked, start_after, next_channel}

-- No channel is unlocked at the offsets below a bound.
abbrev Locked : List ScanChannel → ℕ → ℕ → ℕ → Type 0
Locked channels start from bound =
    (p : ℕ) (c : ScanChannel)
    → from ≤ p
    → p < bound
    → get_elem? channels ((start + p) % length channels) ≡ some c
    → c.locked_out ≡ true

-- The channel found, its offset, and the locked ones before it.
abbrev pub Found : List ScanChannel → ℕ → ℕ → ℕ × ScanChannel → Type 0
Found channels start from (index, channel) =
    (offset : ℕ) × (from ≤ offset)
    × (offset < length channels)
    × (index ≡ (start + offset) % length channels)
    × (get_elem? channels index ≡ some channel)
    × (channel.locked_out ≡ false)
    × Locked channels start from offset

in_range :
    (cs : List ScanChannel) (i : ℕ) → i < length cs → (c : ScanChannel) × (get_elem? cs i ≡ some c)
in_range [] i h = absurd (omega arith)
in_range (c ∷ cs) zero h = (c, refl)
in_range (c ∷ cs) (suc i) h = in_range cs i (omega arith)

Locked-next :
    (channels : List ScanChannel) (start from bound : ℕ) (c : ScanChannel)
    → get_elem? channels ((start + from) % length channels) ≡ some c
    → c.locked_out ≡ true
    → Locked channels start (suc from) bound
    → Locked channels start from bound
Locked-next channels start from bound c e l h p d at-least below found =
    elim (same_or_less from p at-least) [ inl q ↦ same q | inr q ↦ h p d q below found ]
  where
    same : from ≡ p → d.locked_out ≡ true
    same q = cc

    same_or_less : (m n : ℕ) → m ≤ n → (m ≡ n) ⊎ (suc m ≤ n)
    same_or_less m n h = omega arith

first_unlocked_lem :
    (channels : List ScanChannel) (start from count : ℕ)
    → from + count ≡ length channels
    → ((first_unlocked channels start (indices from count) ≡ none)
        × Locked channels start from (length channels))
      ⊎ ((found : ℕ × ScanChannel) × (first_unlocked channels start (indices from count)
            ≡ some found)
          × Found channels start from found)
unfolding first_unlocked
first_unlocked_lem channels start from zero h = inl (refl, λ p c a b _. absurd (omega arith))
first_unlocked_lem channels start from (suc count) h =
    let (c, e) =
      in_range channels ((start + from) % length channels)
        (mod-lt (start + from) (omega (arith, h))) in
    elim (Bool-cases c.locked_out) [
      | inl l ↦ elim (first_unlocked_lem channels start (suc from) count (omega (arith, h))) [
        | inl (n, locked) ↦ inl (
          rw (e, first_unlocked) (rw l n),
          Locked-next channels start from (length channels) c e l locked,
        )
        | inr (found, q, (offset, at-least, below, i, g, u, locked)) ↦ inr (
          found,
          rw (e, first_unlocked) (rw l q),
          (
            offset,
            omega arith,
            below,
            i,
            g,
            u,
            Locked-next channels start from offset c e l locked,
          ),
        )
      ]
      | inr u ↦ inr (
        ((start + from) % length channels, c),
        rw (e, first_unlocked) (rw u refl),
        (from, omega arith, omega (arith, h), refl, e, u, λ p d a b _. absurd (omega arith)),
      )
    ]

-- The offset at which an index is visited.
offset_of : (n start j : ℕ) → start < n → j < n → (o : ℕ) × (o < n) × ((start + o) % n ≡ j)
offset_of n start j s h = elim (order start j) [
  | inl le ↦ (j - start, omega (arith, le, h), ap (λ k. k % n) (back start j le) ∙ mod-eq_of_lt h)
  | inr lt ↦ (
    j + n - start,
    omega (arith, lt, h),
    ap (λ k. k % n) (back start (j + n) (omega (arith, s))) ∙ (add-mod_right j n ∙ mod-eq_of_lt h),
  )
]
  where
    order : (a b : ℕ) → (a ≤ b) ⊎ (b < a)
    order a b = omega arith

    back : (a b : ℕ) → a ≤ b → a + (b - a) ≡ b
    back a b h = omega arith

Locked-All :
    (channels : List ScanChannel) (start : ℕ)
    → start < length channels
    → Locked channels start 0 (length channels)
    → All (λ (c : ScanChannel). c.locked_out ≡ true) channels
Locked-All channels start s h = from_elements channels λ j c e.
    let (o, below, q) = offset_of (length channels) start j s (in_bounds channels j c e) in
    h o c (omega arith) below (rw q e)
  where
    in_bounds :
        (cs : List ScanChannel) (j : ℕ) (c : ScanChannel) → get_elem? cs j ≡ some c → j < length cs
    in_bounds [] j c e = cc
    in_bounds (d ∷ cs) zero c e = omega arith
    in_bounds (d ∷ cs) (suc j) c e = omega (arith, in_bounds cs j c e)

    from_elements :
        (cs : List ScanChannel)
        → ((j : ℕ) (c : ScanChannel) → get_elem? cs j ≡ some c → c.locked_out ≡ true)
        → All (λ (c : ScanChannel). c.locked_out ≡ true) cs
    from_elements [] k = tt
    from_elements (d ∷ cs) k = (k 0 d refl, from_elements cs (λ j. k (suc j)))

start_after-lt : (current : Option ℕ) (n : ℕ) → 0 < n → start_after current n < n
start_after-lt none n h = h
start_after-lt (some i) n h = mod-lt (i + 1) h

-- The channel that next_channel gives is the first unlocked one, in the cyclic order that starts
-- after the current channel; and it gives none only if every channel is locked out.
pub next_channel-first :
    (list : ScanList) (current : Option ℕ)
    → ((next_channel list current ≡ none)
        × All (λ (c : ScanChannel). c.locked_out ≡ true) list.channels)
      ⊎ ((found : ℕ × ScanChannel) × (next_channel list current ≡ some found)
          × Found list.channels (start_after current (length list.channels)) 0 found)
unfolding next_channel
next_channel-first list current = go list.channels
  where
    not_zero : (n : ℕ) → (suc n == 0) ≡ false
    not_zero n = ground arith

    nonempty :
        (c : ScanChannel) (cs : List ScanChannel) {r : Option (ℕ × ScanChannel)}
        → first_unlocked
            (c ∷ cs)
            (start_after current (length (c ∷ cs)))
            (indices 0 (length (c ∷ cs)))
          ≡ r
        → next_channel (record list { channels = c ∷ cs }) current ≡ r
    nonempty c cs h = rw (not_zero (length cs)) h

    go :
        (cs : List ScanChannel)
        → ((next_channel (record list { channels = cs }) current ≡ none)
            × All (λ (c : ScanChannel). c.locked_out ≡ true) cs)
          ⊎ ((found : ℕ × ScanChannel) × (next_channel (record list { channels = cs }) current
                ≡ some found)
              × Found cs (start_after current (length cs)) 0 found)
    go [] = inl (refl, tt)
    go (c ∷ cs) =
        elim (first_unlocked_lem (c ∷ cs) (start_after current (length (c ∷ cs))) 0
          (length (c ∷ cs)) (omega arith)) [
            | inl (n, locked) ↦ inl (
              nonempty c cs n,
              Locked-All (c ∷ cs) (start_after current (length (c ∷ cs)))
                  (start_after-lt current (length (c ∷ cs)) (omega arith)) locked,
            )
            | inr (found, q, f) ↦ inr (found, nonempty c cs q, f)
          ]
