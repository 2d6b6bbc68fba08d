-- ===== src/Api/ShortName.antt =====
-- sanitize_short_name of apps/control-plane/src/api.rs: a name that is safe in file names.
use trunk_scope.Common.{
  ℕ, suc, ◌≤◌, ◌<◌, ◌≡◌, refl, ap, ◌⊎◌, Bool, true, ◌&&◌, ◌||◌, List, [], ◌∷◌, map, arith, leb,
  length, take, retain, All, retain-holds, retain-All, All-weaken, All-map, length-take-le,
  take_all, All-take, Text, codes, to_ascii_uppercase, is_digit, upper, id_eq, text_key,
}

abbrev pub is_ascii_alphanumeric : ℕ → Bool
is_ascii_alphanumeric c = is_digit c || (leb b'A' c && leb c b'Z') || (leb b'a' c && leb c b'z')

abbrev or_system : Text → Text
or_system [] = codes "SYSTEM"
or_system (c ∷ s) = c ∷ s

unfoldable pub sanitize_short_name : Text → Text
unfolding to_ascii_uppercase
sanitize_short_name name =
    or_system (to_ascii_uppercase (take 10 (retain is_ascii_alphanumeric name)))

-- A digit or an upper-case letter.
abbrev pub IsPlain : ℕ → Type 0
IsPlain c = ((b'0' ≤ c) × (c ≤ b'9')) ⊎ ((b'A' ≤ c) × (c ≤ b'Z'))

upper-IsPlain : (c : ℕ) → is_ascii_alphanumeric c ≡ true → IsPlain (upper c)
unfolding upper
upper-IsPlain c h = ground arith

IsPlain-text : (name : Text) → All IsPlain (map upper (take 10 (retain is_ascii_alphanumeric name)))
IsPlain-text name =
    All-map (λ c. is_ascii_alphanumeric c ≡ true) IsPlain upper upper-IsPlain
      (take 10 (retain is_ascii_alphanumeric name))
      (All-take (λ c. is_ascii_alphanumeric c ≡ true) 10 (retain is_ascii_alphanumeric name)
        (retain-holds is_ascii_alphanumeric name))

length-map {ℓ κ} :
    {A : Type ℓ} {B : Type κ} (f : A → B) (xs : List A) → length (map f xs) ≡ length xs
length-map f [] = refl
length-map f (x ∷ xs) = ap suc (length-map f xs)

-- Digits and upper-case letters only, one at least and ten at most.
abbrev pub IsShortName : Text → Type 0
IsShortName name = All IsPlain name × (0 < length name) × (length name ≤ 10)

or_system-IsShortName :
    (name : Text) → All IsPlain name → length name ≤ 10 → IsShortName (or_system name)
or_system-IsShortName [] h n = (ground arith, omega arith, omega arith)
or_system-IsShortName (c ∷ s) h n = (h, omega arith, n)

pub sanitize_short_name-IsShortName : (name : Text) → IsShortName (sanitize_short_name name)
unfolding sanitize_short_name
sanitize_short_name-IsShortName name =
    let kept = take 10 (retain is_ascii_alphanumeric name) in
    or_system-IsShortName (map upper kept) (IsPlain-text name)
      (omega (arith, length-map upper kept, length-take-le 10 (retain is_ascii_alphanumeric name)))

IsPlain-alphanumeric : (c : ℕ) → IsPlain c → is_ascii_alphanumeric c ≡ true
IsPlain-alphanumeric c h = ground arith

upper_of_IsPlain : (c : ℕ) → IsPlain c → upper c ≡ c
unfolding upper
upper_of_IsPlain c h = ground arith

map-upper_of_IsPlain : (s : Text) → All IsPlain s → map upper s ≡ s
map-upper_of_IsPlain [] h = refl
map-upper_of_IsPlain (c ∷ s) (p, h) = cc (upper_of_IsPlain c p, map-upper_of_IsPlain s h)

or_system_of_nonempty : (s : Text) → 0 < length s → or_system s ≡ s
or_system_of_nonempty [] h = absurd (omega arith)
or_system_of_nonempty (c ∷ s) h = refl

sanitize_of_IsShortName : (name : Text) → IsShortName name → sanitize_short_name name ≡ name
unfolding sanitize_short_name
sanitize_of_IsShortName name (plain, some_text, short) =
    let kept =
      retain-All is_ascii_alphanumeric name (
        All-weaken IsPlain (λ c. is_ascii_alphanumeric c ≡ true) IsPlain-alphanumeric name plain) in
    rw kept (
      rw (take_all 10 name short)
        (rw (map-upper_of_IsPlain name plain) (or_system_of_nonempty name some_text)))

-- Whatever the name of a system, its short name has one to ten characters, digits and upper-case
-- letters only; and the short name of a short name is that name.
pub sanitize_short_name_idem :
    (name : Text)
    → IsShortName (sanitize_short_name name)
      × (sanitize_short_name (sanitize_short_name name) ≡ sanitize_short_name name)
sanitize_short_name_idem name =
    let short = sanitize_short_name-IsShortName name in
    (short, sanitize_of_IsShortName (sanitize_short_name name) short)
