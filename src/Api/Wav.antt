-- ===== src/Api/Wav.antt =====
-- merge_wavs and wav_data_offsets of apps/control-plane/src/api.rs, on bytes as natural numbers.
-- A file's length is a usize of 64 bits and a chunk's size a u32, so the additions cannot overflow.
pub mod Bytes
pub mod Chunks
pub mod Merged
use trunk_scope.Common.{
  ℕ, zero, suc, ◌+◌, ◌-◌, ◌*◌, ◌/◌, ◌%◌, min, Bool, ◌&&◌, ◌||◌, Option, none, some, List, [], ◌∷◌,
  ◌++◌, arith, leb, ◌==◌, if◌then◌else◌, map_some, and_then, length, take, drop, codes, text_eq,
  id_eq, text_key, Eq,
}

abbrev pub Bytes : Type 0
Bytes = List ℕ

-- A byte, where the code has seen that it is there.
abbrev pub byte : Bytes → ℕ → ℕ
byte [] i = 0
byte (b ∷ bytes) zero = b
byte (b ∷ bytes) (suc i) = byte bytes i

-- `u32::from_le_bytes` of the four bytes at a place.
abbrev pub le32_at : Bytes → ℕ → ℕ
le32_at bytes i =
    byte bytes i
    + 256 * byte bytes (i + 1)
    + 65536 * byte bytes (i + 2)
    + 16777216 * byte bytes (i + 3)

-- `&wav[offset..offset + 4] == b"data"`
abbrev pub is_data : Bytes → ℕ → Bool
is_data wav i =
    byte wav i == b'd'
    && byte wav (i + 1) == b'a'
    && byte wav (i + 2) == b't'
    && byte wav (i + 3) == b'a'

-- The place behind a chunk, which is padded to an even size.
abbrev pub next_chunk : Bytes → ℕ → ℕ
next_chunk wav offset = let size = le32_at wav (offset + 4) in offset + (8 + size + size % 2)

-- The loop over the chunks; each turn moves on by eight bytes at least, so the file's length is
-- enough fuel.
unfoldable pub data_from : ℕ → ℕ → Bytes → Option ℕ
data_from zero offset wav = none
data_from (suc fuel) offset wav =
    let later = data_from fuel (next_chunk wav offset) wav in
    if leb (offset + 8) (length wav)
    then if is_data wav offset then some (offset + 8) else later
    else none

-- The place of the data, and of their size.
unfoldable pub wav_data_offsets : Bytes → Option (ℕ × ℕ)
unfolding data_from
wav_data_offsets wav = map_some (λ start. (start, start - 4)) (data_from (length wav) 12 wav)

abbrev pub set_byte : ℕ → ℕ → Bytes → Bytes
set_byte i v [] = []
set_byte zero v (b ∷ bytes) = v ∷ bytes
set_byte (suc i) v (b ∷ bytes) = b ∷ set_byte i v bytes

-- `output[i..i + 4].copy_from_slice(&n.to_le_bytes())`
abbrev pub put_le32 : ℕ → ℕ → Bytes → Bytes
put_le32 i n bytes = set_byte i (n % 256) (
    set_byte (i + 1) (n / 256 % 256)
      (set_byte (i + 2) (n / 65536 % 256) (set_byte (i + 3) (n / 16777216 % 256) bytes)))

-- The data of a file, at most as long as the file says and has.
abbrev pub data_at : Bytes → ℕ × ℕ → Bytes
data_at wav (start, _) = take (min (le32_at wav (start - 4)) (length wav - start)) (drop start wav)

-- The loop over the files.
unfoldable pub pcm_of : List Bytes → Option Bytes
pcm_of [] = some []
pcm_of (wav ∷ wavs) =
    and_then (wav_data_offsets wav)
      λ offsets. map_some (λ rest. data_at wav offsets ++ rest) (pcm_of wavs)

abbrev pub is_wave : Bytes → Bool
is_wave first =
    leb 12 (length first)
    && text_eq (take 4 first) (codes "RIFF")
    && text_eq (take 4 (drop 8 first)) (codes "WAVE")

-- The header of the first file and all the data, with both sizes written in.
abbrev pub with_sizes : ℕ → Bytes → Bytes → Bytes
with_sizes start header pcm =
    put_le32 4 (length (header ++ pcm) - 8) (put_le32 (start - 4) (length pcm) (header ++ pcm))

abbrev pub assembled : Bytes → ℕ × ℕ → Bytes → Option Bytes
assembled first (start, _) pcm =
    if leb 4294967296 (length pcm) || leb 4294967296 (length (take start first ++ pcm) - 8)
    then none
    else some (with_sizes start (take start first) pcm)

unfoldable pub merge_wavs : List Bytes → Option Bytes
unfolding wav_data_offsets text_eq
merge_wavs [] = none
merge_wavs (first ∷ wavs) =
    if is_wave first
    then and_then (wav_data_offsets first)
        (λ offsets. and_then (pcm_of (first ∷ wavs)) (assembled first offsets))
    else none
