-- ===== src/Api/Wav/Chunks.antt =====
-- The walk over the chunks, wav_data_offsets of apps/control-plane/src/api.rs.
use trunk_scope.Common.{
  ℕ, zero, suc, ◌+◌, ◌-◌, ◌≤◌, ◌<◌, ◌≡◌, refl, ◌∙◌, inl, inr, true, some, arith, leb, Bool-cases,
  length, id_eq, text_key,
}
use mathlib.Core.Option.{some-injective}
use trunk_scope.Api.Wav.{Bytes, byte, le32_at, is_data, next_chunk, data_from}

next_chunk-far : (wav : Bytes) (offset : ℕ) → offset + 8 ≤ next_chunk wav offset
next_chunk-far wav offset = omega arith

-- The data begin behind a whole chunk head, within the file.
pub data_from-bounds :
    (fuel offset : ℕ) (wav : Bytes) (start : ℕ)
    → data_from fuel offset wav ≡ some start
    → (offset + 8 ≤ start) × (start ≤ length wav)
unfolding data_from
data_from-bounds zero offset wav start h = cc
data_from-bounds (suc fuel) offset wav start h = ground (
  arith,
  next_chunk-far wav offset,
  data_from-bounds fuel (next_chunk wav offset) wav start,
  some-injective (offset + 8) start,
)

-- With as much fuel as the file is long, more fuel gives the same.
pub data_from-enough :
    (fuel more offset : ℕ) (wav : Bytes)
    → length wav ≤ fuel + offset
    → fuel ≤ more
    → data_from more offset wav ≡ data_from fuel offset wav
unfolding data_from
data_from-enough zero zero offset wav h k = refl
data_from-enough zero (suc more) offset wav h k = ground arith
data_from-enough (suc fuel) zero offset wav h k = absurd (omega arith)
data_from-enough (suc fuel) (suc more) offset wav h k =
    rw
      (data_from-enough fuel more (next_chunk wav offset) wav
        (omega (arith, next_chunk-far wav offset)) (omega arith))
      refl

-- Two files agree on a range of places.
abbrev pub Agree : Bytes → Bytes → ℕ → ℕ → Type 0
Agree a b low high = (i : ℕ) → low ≤ i → i < high → byte b i ≡ byte a i

is_data-Agree :
    (a b : Bytes) (offset : ℕ) → Agree a b offset (offset + 4) → is_data b offset ≡ is_data a offset
is_data-Agree a b offset h =
    rw
      (
        h offset (omega arith) (omega arith),
        h (offset + 1) (omega arith) (omega arith),
        h (offset + 2) (omega arith) (omega arith),
        h (offset + 3) (omega arith) (omega arith),
      )
      refl

next_chunk-Agree :
    (a b : Bytes) (offset : ℕ)
    → Agree a b (offset + 4) (offset + 8)
    → next_chunk b offset ≡ next_chunk a offset
next_chunk-Agree a b offset h =
    rw
      (
        h (offset + 4) (omega arith) (omega arith),
        h (offset + 4 + 1) (omega arith) (omega arith),
        h (offset + 4 + 2) (omega arith) (omega arith),
        h (offset + 4 + 3) (omega arith) (omega arith),
      )
      refl

pub le32_at-Agree : (a b : Bytes) (i : ℕ) → Agree a b i (i + 4) → le32_at b i ≡ le32_at a i
le32_at-Agree a b i h =
    rw
      (
        h i (omega arith) (omega arith),
        h (i + 1) (omega arith) (omega arith),
        h (i + 2) (omega arith) (omega arith),
        h (i + 3) (omega arith) (omega arith),
      )
      refl

-- The walk ends at the same place in a file that agrees up to the size of the data.
pub data_from-Agree :
    (fuel more offset : ℕ) (a b : Bytes) (start : ℕ)
    → data_from fuel offset a ≡ some start
    → start ≤ more + offset
    → start ≤ length b
    → Agree a b offset (start - 4)
    → data_from more offset b ≡ some start
unfolding data_from
data_from-Agree zero more offset a b start h k l agree = cc
data_from-Agree (suc fuel) zero offset a b start h k l agree =
    absurd (omega (arith, (data_from-bounds (suc fuel) offset a start h).0))
data_from-Agree (suc fuel) (suc more) offset a b start h k l agree =
    let (far, inside) = data_from-bounds (suc fuel) offset a start h in
    let room : leb (offset + 8) (length b) ≡ true = ground arith in
    let same : is_data b offset ≡ is_data a offset =
      is_data-Agree a b offset (λ i p q. agree i p (omega arith)) in
    let room_a : leb (offset + 8) (length a) ≡ true = ground arith in
    elim (Bool-cases (is_data a offset)) [
      | inl e ↦
          let found : some (offset + 8) ≡ some start = rw (room_a, e) at h in
          rw (room, same ∙ e) found
      | inr e ↦
          let found : data_from fuel (next_chunk a offset) a ≡ some start = rw (room_a, e) at h in
          let (later, end) = data_from-bounds fuel (next_chunk a offset) a start found in
          let next : next_chunk b offset ≡ next_chunk a offset =
            next_chunk-Agree a b offset
              (λ i p q. agree i (omega arith) (omega (arith, next_chunk-far a offset))) in
          rw (room, same ∙ e)
            (rw next (
              data_from-Agree fuel more (next_chunk a offset) a b start found
                (omega (arith, next_chunk-far a offset)) l
                (λ i p q. agree i (omega (arith, next_chunk-far a offset)) q)))
    ]
