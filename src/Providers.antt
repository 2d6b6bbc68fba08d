-- ===== src/Providers.antt =====
-- What apps/control-plane/src/providers.rs reads from a transcript without asking a service.
pub mod Http
pub mod Requests
pub mod Catalog
pub mod Geocode
use trunk_scope.Common.{
  ◌≡◌, refl, Bool, ◌&&◌, ◌||◌, Option, none, some, List, [], ◌∷◌, leb, ◌==◌, if◌then◌else◌, or_else,
  filter_some, map_some, length, drop, any, Text, codes, is_empty, trim, to_ascii_lowercase,
  starts_with, contains, utf8_len, id_eq, text_key,
}

-- The text behind the first place where the marker stands, whatever the case of ASCII letters.
unfoldable pub after_marker : Text → Text → Option Text
unfolding starts_with to_ascii_lowercase
after_marker marker [] = if is_empty marker then some [] else none
after_marker marker (c ∷ text) =
    let later = after_marker marker text in
    if starts_with marker (to_ascii_lowercase (c ∷ text))
    then some (drop (length marker) (c ∷ text))
    else later

-- `split(['.', ',', ';']).next()`
unfoldable pub until_stop : Text → Text
until_stop [] = []
until_stop (c ∷ text) =
    let rest = until_stop text in if c == b'.' || c == b',' || c == b';' then [] else c ∷ rest

abbrev hint_at : Text → Text → Option Text
hint_at transcript marker =
    filter_some (λ value. leb 3 (utf8_len value) && leb (utf8_len value) 80)
      (map_some (λ text. trim (until_stop text)) (after_marker marker transcript))

abbrev first_hint : Text → List Text → Option Text
first_hint transcript [] = none
first_hint transcript (marker ∷ markers) =
    or_else (hint_at transcript marker) (first_hint transcript markers)

unfoldable pub extract_location_hint : Text → Option Text
unfolding after_marker until_stop trim utf8_len
extract_location_hint transcript = first_hint transcript (
    codes " at "
    ∷ codes " near "
    ∷ codes " on "
    ∷ codes " intersection of "
    ∷ codes " by "
    ∷ codes " responding to "
    ∷ codes " enroute to "
    ∷ [])

unfoldable pub detect_two_tone_dispatch : Text → Bool
unfolding contains to_ascii_lowercase
detect_two_tone_dispatch transcript =
    any (λ term. contains term (to_ascii_lowercase transcript))
      (codes "toned out"
        ∷ codes "two tone"
        ∷ codes "two-tone"
        ∷ codes "tone out"
        ∷ codes "tones received"
        ∷ codes "dispatch tone"
        ∷ [])

hint_tests :
    (extract_location_hint (codes "Engine 5 responding AT 12 Main St, nothing showing")
      ≡ some (codes "12 Main St"))
    × (extract_location_hint (codes "Copy.") ≡ none)
unfolding extract_location_hint
hint_tests = (refl, refl)
