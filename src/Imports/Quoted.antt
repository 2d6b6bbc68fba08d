-- ===== src/Imports/Quoted.antt =====
-- The splitter of apps/control-plane/src/imports.rs reads what a writer with quoted fields writes.
use trunk_scope.Common.{
  ℕ, ◌≡◌, refl, inl, inr, true, false, List, [], ◌∷◌, ◌++◌, reverse, arith, ◌==◌, Bool-cases, any,
  All, Text, trim, id_eq, text_key,
}
use mathlib.Core.List.{reverse_aux, reverse-reverse}
use trunk_scope.Imports.{Reading, close_field, read_char, read_chars, split_csv_line}

abbrev quote : ℕ
quote = b'"'

abbrev pub quoted_field : Text → Text
quoted_field field = quote ∷ (field ++ quote ∷ [])

-- Every field in quotation marks, with commas between them.
unfoldable pub quoted_line : Text → List Text → Text
quoted_line field [] = quoted_field field
quoted_line field (next ∷ rest) = quoted_field field ++ b',' ∷ quoted_line next rest

-- A field that quotation marks can carry: it has none inside and no blank at its ends.
abbrev pub IsPlain : Text → Type 0
IsPlain field = (any (λ c. c == quote) field ≡ false) × (trim field ≡ field)

pub read_chars-append :
    (r : Reading) (s t : Text) → read_chars r (s ++ t) ≡ read_chars (read_chars r s) t
unfolding read_chars
read_chars-append r [] t = refl
read_chars-append r (c ∷ s) t = read_chars-append (read_char r c) s t

-- Inside the quotation marks every character is kept.
read_inside :
    (fields : List Text) (current s : Text)
    → any (λ c. c == quote) s ≡ false
    → (read_chars (record { fields = fields; current = current; in_quotes = true }) s
        ≡ record { fields = fields; current = reverse_aux s current; in_quotes = true })
unfolding read_chars read_char
read_inside fields current [] h = refl
read_inside fields current (c ∷ s) h = elim (Bool-cases (c == quote)) [
  | inl e ↦ absurd (ground arith)
  | inr e ↦ elim (Bool-cases (c == b',')) [
    | inl k ↦ rw (e, k) (read_inside fields (c ∷ current) s (ground arith))
    | inr k ↦ rw (e, k) (read_inside fields (c ∷ current) s (ground arith))
  ]
]

-- A quoted field leaves its text, and the quotation mark closed.
pub read_quoted :
    (fields : List Text) (field : Text)
    → any (λ c. c == quote) field ≡ false
    → (read_chars (record { fields = fields; current = []; in_quotes = false }) (quoted_field field)
        ≡ record { fields = fields; current = reverse field; in_quotes = false })
unfolding read_chars read_char
read_quoted fields field h =
    rw
      (read_chars-append (record { fields = fields; current = []; in_quotes = true }) field
        (quote ∷ []))
      (rw (read_inside fields [] field h) refl)

pub read_comma :
    (fields : List Text) (current s : Text)
    → (read_chars (record { fields = fields; current = current; in_quotes = false }) (b',' ∷ s)
        ≡ read_chars
            (record { fields = trim (reverse current) ∷ fields; current = []; in_quotes = false })
            s)
unfolding read_chars read_char
read_comma fields current s = refl

-- What the fields of a line are once its last one is closed.
read_line :
    (fields : List Text) (field : Text) (rest : List Text)
    → All IsPlain (field ∷ rest)
    → ((close_field (
          read_chars
            (record { fields = fields; current = []; in_quotes = false })
            (quoted_line field rest))).fields
        ≡ reverse_aux (field ∷ rest) fields)
unfolding quoted_line
read_line fields field [] ((plain, trimmed), _) =
    rw (read_quoted fields field plain) (rw (reverse-reverse field) (rw trimmed refl))
read_line fields field (next ∷ rest) ((plain, trimmed), h) =
    rw
      (read_chars-append (record { fields = fields; current = []; in_quotes = false })
        (quoted_field field) (b',' ∷ quoted_line next rest))
      (rw (read_quoted fields field plain) (
        rw (read_comma fields (reverse field) (quoted_line next rest))
          (rw (reverse-reverse field) (rw trimmed (read_line (field ∷ fields) next rest h)))))

-- A line of quoted fields, each without a quotation mark and without blanks at its ends, is split
-- into exactly these fields; commas inside them stay.
split_csv_line-quoted_line :
    (field : Text) (rest : List Text)
    → All IsPlain (field ∷ rest)
    → split_csv_line (quoted_line field rest) ≡ field ∷ rest
unfolding split_csv_line
split_csv_line-quoted_line field rest h =
    rw (read_line [] field rest h) (reverse-reverse (field ∷ rest))
