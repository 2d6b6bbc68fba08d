-- ===== src/Imports/Sites.antt =====
-- The site file of apps/control-plane/src/imports.rs. The frequency of a token, a float's parse and
-- rounding, is a parameter, and so is the parse of a coordinate.
use trunk_scope.Common.{
  ℕ, ◌+◌, ◌-◌, ◌*◌, Bool, true, false, ◌&&◌, ◌||◌, Option, none, some, List, [], ◌∷◌, ◌++◌, reverse,
  ltb, leb, ◌==◌, if◌then◌else◌, is_some_and, unwrap_or, or_else, map_some, and_then, length,
  get_elem?, drop, head?, Text, codes, is_empty, trim, trim_by, trim_end_by, to_ascii_lowercase,
  contains, split, is_digit, parse_uint, id_eq, text_key,
}
use trunk_scope.Common.Float.{F64}
use trunk_scope.Domain.{Uuid}
use trunk_scope.State.Profiles.{SystemSite}
use trunk_scope.Imports.{split_csv_line, filled_lines, unquoted}

-- `hz_of_mhz` is `parse::<f64>().ok().map(|mhz| (mhz * 1_000_000.0).round() as u64)`.
pub record Floats : Type 0 where
  pub parse_f64 : Text → Option F64
  pub hz_of_mhz : Text → Option ℕ

pub record SiteImportResult : Type 0 where
  pub sites : List SystemSite
  pub rows : ℕ

-- `trim_start_matches("0x")`: as often as it is there.
unfoldable pub trim_0x : Text → Text
trim_0x [] = []
trim_0x (c ∷ []) = c ∷ []
trim_0x (c ∷ d ∷ s) = let rest = trim_0x s in if (c == b'0') && (d == b'x') then rest else c ∷ d ∷ s

abbrev hex_value : ℕ → Option ℕ
hex_value c =
    if is_digit c
    then some (c - 48)
    else if leb b'a' c && leb c b'f'
    then some (c - 87)
    else if leb b'A' c && leb c b'F'
    then some (c - 55)
    else none

unfoldable pub hex_digits : ℕ → Text → Option ℕ
hex_digits acc [] = some acc
hex_digits acc (c ∷ s) = and_then (hex_value c) (λ d. hex_digits (acc * 16 + d) s)

abbrev below_u32 : Option ℕ → Option ℕ
below_u32 n = and_then n (λ k. if ltb k 4294967296 then some k else none)

-- `u32::from_str_radix(text, 16)`.
unfoldable pub parse_hex : Text → Option ℕ
unfolding hex_digits
parse_hex [] = none
parse_hex (c ∷ []) = below_u32 (hex_digits 0 (c ∷ []))
parse_hex (c ∷ d ∷ s) = below_u32 (hex_digits 0 (if c == b'+' then d ∷ s else c ∷ d ∷ s))

unfoldable pub parse_nac : Text → Option ℕ
unfolding parse_hex trim_0x parse_uint trim trim_by
parse_nac raw =
    let trimmed = unquoted raw in
    if is_empty trimmed
    then none
    else or_else (parse_hex (trim_0x trimmed)) (parse_uint 4294967296 trimmed)

abbrev pub is_c : ℕ → Bool
is_c c = (c == b'c') || (c == b'C')

abbrev ends_with_c : Text → Bool
ends_with_c text = is_some_and (head? (reverse text)) is_c

module _ (floats : Floats) where
  -- A token's frequency and whether it is a control channel.
  unfoldable pub parse_frequency : Text → Option (Bool × ℕ)
  unfolding trim trim_by trim_end_by
  parse_frequency token =
      let cleaned = unquoted token in
      if is_empty cleaned
      then none
      else map_some (λ hz. (ends_with_c cleaned, hz)) (floats.hz_of_mhz (trim_end_by is_c cleaned))

  abbrev add_channel : Option (Bool × ℕ) → List ℕ × List ℕ → List ℕ × List ℕ
  add_channel none found = found
  add_channel (some (true, hz)) (control, voice) = (control ++ hz ∷ [], voice)
  add_channel (some (false, hz)) (control, voice) = (control, voice ++ hz ∷ [])

  unfoldable pub parse_tokens : List ℕ × List ℕ → List Text → List ℕ × List ℕ
  unfolding parse_frequency
  parse_tokens found [] = found
  parse_tokens found (token ∷ tokens) =
      parse_tokens (add_channel (parse_frequency token) found) tokens

  unfoldable pub parse_frequencies : Text → List ℕ × List ℕ
  unfolding parse_tokens split
  parse_frequencies raw = parse_tokens ([], []) (split b',' raw)

  -- `join(",")`
  abbrev pub join_commas : List Text → Text
  join_commas [] = []
  join_commas (field ∷ []) = field
  join_commas (field ∷ next ∷ rest) = field ++ b',' ∷ join_commas (next ∷ rest)

  abbrev field : List Text → ℕ → Text
  field fields i = unwrap_or (get_elem? fields i) []

  unfoldable pub frequency_fields : List Text → Text
  frequency_fields fields =
      if ltb 10 (length fields) then join_commas (drop 9 fields) else field fields 8

  abbrev site_of : Uuid → List Text → SystemSite
  site_of id fields =
      let channels = parse_frequencies (frequency_fields fields) in
      record {
        id = id;
        name = unquoted (field fields 4);
        control_channels_hz = channels.0;
        voice_channels_hz = channels.1;
        nac = parse_nac (field fields 3);
        latitude = floats.parse_f64 (unquoted (field fields 6));
        longitude = floats.parse_f64 (unquoted (field fields 7));
      }

  -- One turn of the loop: a row with nine fields and a name is a site.
  unfoldable pub read_site : Uuid → Text → Option SystemSite
  unfolding split_csv_line parse_frequencies frequency_fields parse_nac trim trim_by
  read_site id line =
      let fields = split_csv_line line in
      if ltb (length fields) 9 || is_empty (unquoted (field fields 4))
      then none
      else some (site_of id fields)

  unfoldable pub read_sites : (ℕ → Uuid) → SiteImportResult → List Text → SiteImportResult
  unfolding read_site
  read_sites fresh done [] = done
  read_sites fresh done (line ∷ lines) = elim (read_site (fresh done.rows) line) [
    | none ↦ read_sites fresh done lines
    | some site ↦
        read_sites fresh (record { sites = done.sites ++ site ∷ []; rows = done.rows + 1 }) lines
  ]

  abbrev sites_of : (ℕ → Uuid) → List Text → Option SiteImportResult
  sites_of fresh [] = none
  sites_of fresh (header ∷ lines) =
      if contains (codes "description") (to_ascii_lowercase header)
      then some (read_sites fresh (record { sites = []; rows = 0 }) lines)
      else none

  unfoldable pub parse_site_csv : (ℕ → Uuid) → Text → Option SiteImportResult
  unfolding read_sites contains to_ascii_lowercase
  parse_site_csv fresh csv = sites_of fresh (filled_lines csv)
