-- ===== src/Api/Range.antt =====
-- parse_range of apps/control-plane/src/api.rs: the byte range of a recording's request.
-- On an empty recording the eager `total - 1` of a suffix wraps, and is dropped.
use trunk_scope.Common.{
  ℕ, ◌-◌, ◌^◌, ◌≤◌, ◌<◌, min, ◌≡◌, refl, inl, inr, true, Option, none, some, [], ◌∷◌, arith, ltb,
  leb, if◌then◌else◌, Bool-cases, is_none_or, map_some, and_then, head?, Text, codes, trim,
  strip_prefix, split, split_once, parse_uint, id_eq, text_key,
}

abbrev suffix_range : ℕ → ℕ → Option (ℕ × ℕ)
suffix_range requested total =
    let count = min requested total in if ltb 0 count then some (total - count, total - 1) else none

abbrev bounded_range : ℕ → ℕ → Option (ℕ × ℕ)
bounded_range start end = if leb start end then some (start, end) else none

abbrev end_of_range : ℕ → Text → Option ℕ
end_of_range total [] = some (total - 1)
end_of_range total (c ∷ text) = map_some (λ n. min n (total - 1)) (parse_uint (2 ^ 64) (c ∷ text))

abbrev range_of : ℕ → Text × Text → Option (ℕ × ℕ)
range_of total ([], end) =
    and_then (parse_uint (2 ^ 64) end) λ requested. suffix_range requested total
range_of total (c ∷ text, end) = and_then (parse_uint (2 ^ 64) (c ∷ text)) λ start.
    if leb total start then none else and_then (end_of_range total end) (bounded_range start)

unfoldable pub parse_range : Text → ℕ → Option (ℕ × ℕ)
parse_range value total = and_then (strip_prefix (codes "bytes=") value) λ ranges.
    and_then (head? (split b',' ranges))
      λ range. and_then (split_once b'-' (trim range)) (range_of total)

bounded_range-within :
    (total start i j : ℕ) (end : Option ℕ)
    → is_none_or end (λ e. ltb e total) ≡ true
    → and_then end (bounded_range start) ≡ some (i, j)
    → (i ≤ j) × (j < total)
bounded_range-within total start i j none h e = cc
bounded_range-within total start i j (some n) h e = ground arith

end_of_range-within :
    (total : ℕ) (text : Text)
    → 0 < total
    → is_none_or (end_of_range total text) (λ e. ltb e total) ≡ true
end_of_range-within total [] h = ground arith
end_of_range-within total (c ∷ text) h = capped (parse_uint (2 ^ 64) (c ∷ text))
  where
    capped :
        (n : Option ℕ) → is_none_or (map_some (λ n. min n (total - 1)) n) (λ e. ltb e total) ≡ true
    capped none = refl
    capped (some n) = ground arith

range_of-within :
    (total i j : ℕ) (bounds : Text × Text)
    → range_of total bounds ≡ some (i, j)
    → (i ≤ j) × (j < total)
range_of-within total i j ([], end) e = suffix (parse_uint (2 ^ 64) end) e
  where
    suffix :
        (n : Option ℕ)
        → and_then n (λ r. suffix_range r total) ≡ some (i, j)
        → (i ≤ j) × (j < total)
    suffix none e = cc
    suffix (some n) e = ground arith
range_of-within total i j (c ∷ text, end) e = prefixed (parse_uint (2 ^ 64) (c ∷ text)) e
  where
    prefixed :
        (n : Option ℕ)
        → and_then n (λ start.
          if leb total start then none else and_then (end_of_range total end) (bounded_range start))
          ≡ some (i, j)
        → (i ≤ j) × (j < total)
    prefixed none e = cc
    prefixed (some start) e = elim (Bool-cases (leb total start)) [
      | inl l ↦ absurd (ground arith)
      | inr l ↦
          bounded_range-within total start i j (end_of_range total end)
            (end_of_range-within total end (ground arith)) (ground arith)
    ]

-- A range that is served lies in the recording: its first byte is not after its last byte, which
-- is below the length.
pub parse_range-within :
    (value : Text) (total i j : ℕ) → parse_range value total ≡ some (i, j) → (i ≤ j) × (j < total)
unfolding parse_range
parse_range-within value total i j e = ranges (strip_prefix (codes "bytes=") value) e
  where
    bounds :
        (b : Option (Text × Text))
        → and_then b (range_of total) ≡ some (i, j)
        → (i ≤ j) × (j < total)
    bounds none e = cc
    bounds (some b) e = range_of-within total i j b e

    range :
        (r : Option Text)
        → and_then r (λ t. and_then (split_once b'-' (trim t)) (range_of total)) ≡ some (i, j)
        → (i ≤ j) × (j < total)
    range none e = cc
    range (some t) e = bounds (split_once b'-' (trim t)) e

    ranges :
        (r : Option Text)
        → and_then r (λ t.
          and_then
            (head? (split b',' t))
            (λ u. and_then (split_once b'-' (trim u)) (range_of total)))
          ≡ some (i, j)
        → (i ≤ j) × (j < total)
    ranges none e = cc
    ranges (some t) e = range (head? (split b',' t)) e
