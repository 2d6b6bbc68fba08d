-- ===== src/Api/Wav/Bytes.antt =====
-- Reading bytes that were written, for apps/control-plane/src/api.rs.
use trunk_scope.Common.{
  ℕ, zero, suc, ◌+◌, ◌/◌, ◌%◌, ◌≤◌, ◌<◌, ◌≡◌, refl, ◌∙◌, ◌⊎◌, [], ◌∷◌, ◌++◌, arith, ◌==◌,
  if◌then◌else◌, length, take, drop, id_eq, text_key,
}
use trunk_scope.Api.Wav.{Bytes, byte, le32_at, set_byte, put_le32}

pub length-set_byte : (i v : ℕ) (b : Bytes) → length (set_byte i v b) ≡ length b
length-set_byte i v [] = refl
length-set_byte zero v (c ∷ b) = refl
length-set_byte (suc i) v (c ∷ b) = omega (arith, length-set_byte i v b)

byte-set_byte :
    (i v j : ℕ) (b : Bytes)
    → i < length b
    → byte (set_byte i v b) j ≡ (if j == i then v else byte b j)
byte-set_byte i v j [] h = absurd (omega arith)
byte-set_byte zero v zero (c ∷ b) h = ground arith
byte-set_byte zero v (suc j) (c ∷ b) h = ground arith
byte-set_byte (suc i) v zero (c ∷ b) h = ground arith
byte-set_byte (suc i) v (suc j) (c ∷ b) h = ground (arith, byte-set_byte i v j b (omega arith))

pub byte-append : (j : ℕ) (b c : Bytes) → j < length b → byte (b ++ c) j ≡ byte b j
byte-append j [] c h = absurd (omega arith)
byte-append zero (x ∷ b) c h = refl
byte-append (suc j) (x ∷ b) c h = byte-append j b c (omega arith)

pub byte-take : (j n : ℕ) (b : Bytes) → j < n → byte (take n b) j ≡ byte b j
byte-take j zero b h = absurd (omega arith)
byte-take j (suc n) [] h = refl
byte-take zero (suc n) (x ∷ b) h = refl
byte-take (suc j) (suc n) (x ∷ b) h = byte-take j n b (omega arith)

pub length-put_le32 : (i n : ℕ) (b : Bytes) → length (put_le32 i n b) ≡ length b
length-put_le32 i n b = rw (length-set_byte, length-set_byte, length-set_byte, length-set_byte) refl

byte-put :
    (i n j : ℕ) (b : Bytes)
    → i + 4 ≤ length b
    → byte (put_le32 i n b) j ≡ (
        if j == i
        then n % 256
        else if j == i + 1
        then n / 256 % 256
        else if j == i + 2
        then n / 65536 % 256
        else if j == i + 3
        then n / 16777216 % 256
        else byte b j)
byte-put i n j b h =
    let third = set_byte (i + 3) (n / 16777216 % 256) b in
    let second = set_byte (i + 2) (n / 65536 % 256) third in
    let first = set_byte (i + 1) (n / 256 % 256) second in
    let long3 = length-set_byte (i + 3) (n / 16777216 % 256) b in
    let long2 = length-set_byte (i + 2) (n / 65536 % 256) third in
    let long1 = length-set_byte (i + 1) (n / 256 % 256) second in
    rw (byte-set_byte i (n % 256) j first (omega arith)) (
      rw (byte-set_byte (i + 1) (n / 256 % 256) j second (omega arith)) (
        rw (byte-set_byte (i + 2) (n / 65536 % 256) j third (omega arith))
          (rw (byte-set_byte (i + 3) (n / 16777216 % 256) j b (omega arith)) refl)))

-- The bytes around the four stay.
pub byte-put_le32 :
    (i n j : ℕ) (b : Bytes)
    → i + 4 ≤ length b
    → (j < i) ⊎ (i + 4 ≤ j)
    → byte (put_le32 i n b) j ≡ byte b j
byte-put_le32 i n j b h k = rw (byte-put i n j b h) (ground (arith, k))

-- The four bytes are the number.
pub le32_at-put_le32 :
    (i n : ℕ) (b : Bytes) → i + 4 ≤ length b → n < 4294967296 → le32_at (put_le32 i n b) i ≡ n
le32_at-put_le32 i n b h k =
    let a : byte (put_le32 i n b) i ≡ n % 256 = rw (byte-put i n i b h) (ground arith) in
    let b' : byte (put_le32 i n b) (i + 1) ≡ n / 256 % 256 =
      rw (byte-put i n (i + 1) b h) (ground arith) in
    let c : byte (put_le32 i n b) (i + 2) ≡ n / 65536 % 256 =
      rw (byte-put i n (i + 2) b h) (ground arith) in
    let d : byte (put_le32 i n b) (i + 3) ≡ n / 16777216 % 256 =
      rw (byte-put i n (i + 3) b h) (ground arith) in
    omega (arith, a, b', c, d)

pub drop-set_byte : (i v n : ℕ) (b : Bytes) → i < n → drop n (set_byte i v b) ≡ drop n b
drop-set_byte i v zero b h = absurd (omega arith)
drop-set_byte i v (suc n) [] h = refl
drop-set_byte zero v (suc n) (x ∷ b) h = refl
drop-set_byte (suc i) v (suc n) (x ∷ b) h = drop-set_byte i v n b (omega arith)

pub drop-put_le32 : (i n m : ℕ) (b : Bytes) → i + 4 ≤ m → drop m (put_le32 i n b) ≡ drop m b
drop-put_le32 i n m b h =
    let third = set_byte (i + 3) (n / 16777216 % 256) b in
    let second = set_byte (i + 2) (n / 65536 % 256) third in
    let first = set_byte (i + 1) (n / 256 % 256) second in
    drop-set_byte i (n % 256) m first (omega arith)
    ∙ drop-set_byte (i + 1) (n / 256 % 256) m second (omega arith)
    ∙ drop-set_byte (i + 2) (n / 65536 % 256) m third (omega arith)
    ∙ drop-set_byte (i + 3) (n / 16777216 % 256) m b (omega arith)
