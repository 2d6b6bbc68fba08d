-- ===== src/Api/Wav/Merged.antt =====
-- What merge_wavs of apps/control-plane/src/api.rs gives.
use trunk_scope.Common.{
  ℕ, zero, suc, ◌-◌, min, ◌≤◌, ◌<◌, ◌≡◌, refl, sym, ap, ◌∙◌, inl, inr, ◌||◌, some, List, [], ◌∷◌,
  ◌++◌, arith, leb, Bool-cases, Option-cases, length, take, drop, length-append, length-take,
  length-drop, drop-append, id_eq, text_key,
}
use mathlib.Core.Option.{some-injective}
use mathlib.Core.Path.{subst}
use trunk_scope.Api.Wav.{
  Bytes, le32_at, put_le32, data_at, data_from, wav_data_offsets, pcm_of, is_wave, with_sizes,
  assembled, merge_wavs,
}
use trunk_scope.Api.Wav.Bytes.{
  length-put_le32, byte-put_le32, le32_at-put_le32, drop-put_le32, byte-append, byte-take,
}
use trunk_scope.Api.Wav.Chunks.{data_from-bounds, data_from-Agree, le32_at-Agree, Agree}

-- A file whose sizes are right and whose data are `pcm`.
abbrev pub IsMerged : Bytes → Bytes → Type 0
IsMerged pcm out =
    (start : ℕ) × (wav_data_offsets out ≡ some (start, start - 4))
    × (drop start out ≡ pcm)
    × (le32_at out (start - 4) ≡ length pcm)
    × (le32_at out 4 ≡ length out - 8)

module _ (first pcm : Bytes) (start : ℕ) where
  abbrev header : Bytes
  header = take start first

  abbrev sized : Bytes
  sized = put_le32 (start - 4) (length pcm) (header ++ pcm)

  abbrev written : Bytes
  written = with_sizes start header pcm

  length-written : length written ≡ length (header ++ pcm)
  length-written =
      length-put_le32 4 _ sized ∙ length-put_le32 (start - 4) (length pcm) (header ++ pcm)

  length-header : start ≤ length first → length header ≡ start
  length-header h = omega (arith, length-take start first)

  written-Agree : 20 ≤ start → start ≤ length first → Agree first written 12 (start - 4)
  written-Agree h k i p q =
      let long = length-header k in
      let whole = length-append header pcm in
      let sized_long = length-put_le32 (start - 4) (length pcm) (header ++ pcm) in
      byte-put_le32 4 (length (header ++ pcm) - 8) i sized (omega arith) (inr (omega arith))
      ∙ byte-put_le32 (start - 4) (length pcm) i (header ++ pcm) (omega arith) (inl q)
      ∙ byte-append i header pcm (omega arith)
      ∙ byte-take i start first (omega arith)

  written-offsets :
      20 ≤ start
      → start ≤ length first
      → data_from (length first) 12 first ≡ some start
      → wav_data_offsets written ≡ some (start, start - 4)
  unfolding wav_data_offsets
  written-offsets h k e =
      let long = length-header k in
      let whole = length-append header pcm in
      let found =
        data_from-Agree (length first) (length written) 12 first written start e
          (omega (arith, length-written)) (omega (arith, length-written)) (written-Agree h k) in
      rw found refl

  written-IsMerged :
      data_from (length first) 12 first ≡ some start
      → length pcm < 4294967296
      → length (header ++ pcm) - 8 < 4294967296
      → IsMerged pcm written
  written-IsMerged e small small_file =
      let (far, inside) = data_from-bounds (length first) 12 first start e in
      let long = length-header inside in
      let whole = length-append header pcm in
      let sized_long = length-put_le32 (start - 4) (length pcm) (header ++ pcm) in
      (
        start,
        written-offsets far inside e,
        drop-put_le32 4 _ start sized (omega arith)
            ∙ drop-put_le32 (start - 4) (length pcm) start (header ++ pcm) (omega arith)
            ∙ ap (λ n. drop n (header ++ pcm)) (sym long)
            ∙ drop-append header pcm,
        le32_at-Agree sized written (start - 4)
              (λ i p q. byte-put_le32 4 _ i sized (omega arith) (inr (omega arith)))
            ∙ le32_at-put_le32 (start - 4) (length pcm) (header ++ pcm) (omega arith) small,
        le32_at-put_le32 4 (length (header ++ pcm) - 8) sized (omega arith) small_file
            ∙ ap (λ n. n - 8) (sym length-written),
      )

assembled-IsMerged :
    (first : Bytes) (start : ℕ) (pcm out : Bytes)
    → data_from (length first) 12 first ≡ some start
    → assembled first (start, start - 4) pcm ≡ some out
    → IsMerged pcm out
assembled-IsMerged first start pcm out e k =
    elim (Bool-cases
      (leb 4294967296 (length pcm) || leb 4294967296 (length (take start first ++ pcm) - 8))) [
        | inl big ↦ absurd (ground (arith, big, k))
        | inr fits ↦
            let done : some (with_sizes start (take start first) pcm) ≡ some out = rw fits at k in
            subst (IsMerged pcm) (some-injective (with_sizes start (take start first) pcm) out done)
              (written-IsMerged first pcm start e (ground (arith, fits)) (ground (arith, fits)))
      ]

-- The data of a sequence of files: for each file, in order, as many bytes from the place that the
-- walk over its chunks finds as the size in front of it says and the file has.
pub data IsDataOf : List Bytes → Bytes → Type 0 where
  no_files : IsDataOf [] []
  file :
      {wavs : List Bytes} {pcm : Bytes}
      → (wav : Bytes) (start : ℕ) → wav_data_offsets wav ≡ some (start, start - 4)
      → IsDataOf wavs pcm
      → IsDataOf (wav ∷ wavs) (take (le32_at wav (start - 4)) (drop start wav) ++ pcm)

-- Taking no more than there are is taking.
take-min : (n : ℕ) (b : Bytes) → take (min n (length b)) b ≡ take n b
take-min zero b = let e : min 0 (length b) ≡ 0 = omega arith in rw e refl
take-min (suc n) [] = let e : min (suc n) 0 ≡ 0 = omega arith in rw e refl
take-min (suc n) (x ∷ b) =
    let e : min (suc n) (suc (length b)) ≡ suc (min n (length b)) = omega arith in
    rw e (ap (λ r. x ∷ r) (take-min n b))

data_at-take :
    (wav : Bytes) (start size : ℕ)
    → data_at wav (start, size) ≡ take (le32_at wav (start - 4)) (drop start wav)
data_at-take wav start size =
    ap (λ n. take (min (le32_at wav (start - 4)) n) (drop start wav)) (sym (length-drop start wav))
    ∙ take-min (le32_at wav (start - 4)) (drop start wav)

pcm_of-IsDataOf : (wavs : List Bytes) (pcm : Bytes) → pcm_of wavs ≡ some pcm → IsDataOf wavs pcm
unfolding pcm_of wav_data_offsets
pcm_of-IsDataOf [] pcm h = subst (IsDataOf []) (some-injective [] pcm h) no_files
pcm_of-IsDataOf (wav ∷ wavs) pcm h = elim (Option-cases (data_from (length wav) 12 wav)) [
  | inl k ↦ absurd (ground (arith, rw k at h))
  | inr (start, k) ↦ elim (Option-cases (pcm_of wavs)) [
    | inl l ↦ absurd (ground (arith, rw (k, l) at h))
    | inr (rest, l) ↦
        subst (IsDataOf (wav ∷ wavs))
          (ap (λ b. b ++ rest) (sym (data_at-take wav start (start - 4)))
            ∙ some-injective _ pcm (rw (k, l) at h))
          (file wav start (rw k refl) (pcm_of-IsDataOf wavs rest l))
  ]
]

-- A merge that gives a file gives one in which the walk over the chunks finds the data of every file
-- merged, in their order, and nothing behind them, and in which both sizes are right.
pub merge_wavs-IsMerged :
    (wavs : List Bytes) (out : Bytes)
    → merge_wavs wavs ≡ some out
    → (pcm : Bytes) × IsDataOf wavs pcm × IsMerged pcm out
unfolding merge_wavs wav_data_offsets
merge_wavs-IsMerged [] out h = cc
merge_wavs-IsMerged (first ∷ wavs) out h = elim (Bool-cases (is_wave first)) [
  | inl e ↦ elim (Option-cases (data_from (length first) 12 first)) [
    | inl k ↦ absurd (ground (arith, rw (e, k) at h))
    | inr (start, k) ↦ elim (Option-cases (pcm_of (first ∷ wavs))) [
      | inl l ↦ absurd (ground (arith, rw (e, k, l) at h))
      | inr (pcm, l) ↦ (
        pcm,
        pcm_of-IsDataOf (first ∷ wavs) pcm l,
        assembled-IsMerged first start pcm out k (rw (e, k, l) at h),
      )
    ]
  ]
  | inr e ↦ absurd (ground (arith, rw e at h))
]
