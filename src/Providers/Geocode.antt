-- ===== src/Providers/Geocode.antt =====
-- The geocoder of apps/control-plane/src/providers.rs. Parsing a text as an `f64`, and a number as
-- one, are parameters.
pub mod Within
use trunk_scope.Common.{
  ℕ, zero, suc, ◌%◌, Bool, not, ◌||◌, Option, none, some, List, [], ◌∷◌, ◌++◌, ltb, leb, ◌==◌,
  if◌then◌else◌, unwrap_or, or_else, and_then, Text, codes, text_eq, is_empty, trim, id_eq,
  text_key,
}
use trunk_scope.Common.Float.{F64}
use trunk_scope.Common.Json.{Json, Items, Number, end, item, array, number, get_key, as_str}
use trunk_scope.Domain.{IncidentLocation}
use trunk_scope.State.Settings.{AppSettings}
use trunk_scope.Start.Defaults.{Environment, effective_geocoder_url}
use trunk_scope.Providers.Http.{
  Services, HttpRequest, request_to, no_body, effective_geocoder_api_key, Reply, received, failed,
}

pub record Floats : Type 0 where
  pub parse_f64 : Text → Option F64
  pub as_f64 : Number → F64

abbrev number_of : Floats → Json → Option F64
number_of floats (number n) = some (floats.as_f64 n)
number_of floats _ = none

abbrev as_array : Json → Option Items
as_array (array items) = some items
as_array _ = none

abbrev nth_item : ℕ → Items → Option Json
nth_item n end = none
nth_item zero (item value items) = some value
nth_item (suc n) (item value items) = nth_item n items

abbrev label_of : Text → Text → Json → Text
label_of key hint first = unwrap_or (and_then (get_key key first) as_str) hint

unfoldable pub parse_mapbox_location : Floats → Json → Text → Option (F64 × F64 × Text)
parse_mapbox_location floats response hint =
    and_then (and_then (and_then (get_key (codes "features") response) as_array) (nth_item 0))
      λ first. and_then (and_then (get_key (codes "center") first) as_array) λ coords.
        and_then (and_then (nth_item 1 coords) (number_of floats)) λ latitude.
          and_then (and_then (nth_item 0 coords) (number_of floats))
            λ longitude. some (latitude, longitude, label_of (codes "place_name") hint first)

-- A coordinate given as a text or as a number.
abbrev coordinate : Floats → Text → Json → Option F64
coordinate floats key first =
    or_else (and_then (and_then (get_key key first) as_str) floats.parse_f64)
      (and_then (get_key key first) (number_of floats))

unfoldable pub parse_lat_lon_label : Floats → Items → Text → Option (F64 × F64 × Text)
parse_lat_lon_label floats response hint = and_then (nth_item 0 response) λ first.
    and_then (coordinate floats (codes "lat") first) λ latitude.
      and_then (coordinate floats (codes "lon") first)
        λ longitude. some (latitude, longitude, label_of (codes "display_name") hint first)

-- `hint.replace(' ', "%20")`
unfoldable pub urlencoding_hint : Text → Text
urlencoding_hint [] = []
urlencoding_hint (c ∷ hint) =
    let rest = urlencoding_hint hint in if c == b' ' then codes "%20" ++ rest else c ∷ rest

abbrev google_location : Floats → Json → Text → Option (F64 × F64 × Text)
google_location floats response hint =
    and_then (and_then (and_then (get_key (codes "results") response) as_array) (nth_item 0))
      λ first.
        and_then (and_then (get_key (codes "geometry") first) (get_key (codes "location")))
          λ location.
            and_then (and_then (get_key (codes "lat") location) (number_of floats)) λ latitude.
              and_then (and_then (get_key (codes "lng") location) (number_of floats)) λ longitude.
                some (latitude, longitude, label_of (codes "formatted_address") hint first)

abbrev asked_with : Text → List (Text × Text) → HttpRequest
asked_with url query = record (request_to url no_body) { query = query }

abbrev nominatim_request : Text → Text → Text → HttpRequest
nominatim_request endpoint api_key hint =
    let key = if is_empty api_key then [] else (codes "key", api_key) ∷ [] in
    record (request_to endpoint no_body) {
      query =
          ((codes "q", hint) ∷ (codes "format", codes "jsonv2") ∷ (codes "limit", codes "1") ∷ [])
          ++ key;
      headers = (codes "user-agent", codes "TrunkScope/1.0") ∷ [];
    }

unfoldable pub locate : Services → Floats → Text → Text → Text → Text → Option (F64 × F64 × Text)
unfolding text_eq urlencoding_hint parse_mapbox_location parse_lat_lon_label
locate services floats provider endpoint api_key hint =
    if text_eq provider (codes "locationiq")
    then and_then
        (and_then
          (services.json (
            asked_with endpoint (
              (codes "key", api_key)
              ∷ (codes "q", hint)
              ∷ (codes "format", codes "json")
              ∷ (codes "limit", codes "1")
              ∷ [])))
          as_array)
        (λ items. parse_lat_lon_label floats items hint)
    else if text_eq provider (codes "google")
    then and_then
        (services.json (
          asked_with (codes "https://maps.googleapis.com/maps/api/geocode/json")
            ((codes "address", hint) ∷ (codes "key", api_key) ∷ [])))
        (λ response. google_location floats response hint)
    else if text_eq provider (codes "mapbox")
    then and_then
        (services.json (
          asked_with
            (codes "https://api.mapbox.com/geocoding/v5/mapbox.places/"
              ++ urlencoding_hint hint
              ++ codes ".json")
            ((codes "access_token", api_key) ∷ (codes "limit", codes "1") ∷ [])))
        (λ response. parse_mapbox_location floats response hint)
    else and_then (and_then (services.json (nominatim_request endpoint api_key hint)) as_array)
        (λ items. parse_lat_lon_label floats items hint)

-- `is_finite`, and `(-bound..=bound).contains(&v)` for the bits of a positive bound: the bits below
-- the sign are in the order of the absolute values, with the infinity and then NaN above.
abbrev pub is_finite64 : F64 → Bool
is_finite64 v = ltb (v % 0x8000_0000_0000_0000) 0x7ff0_0000_0000_0000

abbrev pub within : F64 → F64 → Bool
within bound v = leb (v % 0x8000_0000_0000_0000) bound

-- 90.0 and 180.0.
abbrev pub f64_90 : F64
f64_90 = 0x4056_8000_0000_0000

abbrev pub f64_180 : F64
f64_180 = 0x4066_8000_0000_0000

abbrev pub checked : F64 × F64 × Text → Option IncidentLocation
checked (latitude, longitude, label) =
    if not (is_finite64 latitude)
      || not (is_finite64 longitude)
      || not (within f64_90 latitude)
      || not (within f64_180 longitude)
    then none
    else some (record {
      label = label;
      latitude = latitude;
      longitude = longitude;
      confidence = 0x3f33_3333;
    })

unfoldable pub geocode :
    Services → Floats → Environment → AppSettings → Text → Option IncidentLocation
unfolding locate trim
geocode services floats env settings hint =
    and_then (effective_geocoder_url env settings) λ endpoint.
      and_then
        (locate services floats (trim settings.geocoder_provider) endpoint
          (effective_geocoder_api_key env settings) hint)
        checked

unfoldable pub test_geocoder : Services → Floats → Environment → AppSettings → Reply Text
unfolding geocode
test_geocoder services floats env settings =
    elim (geocode services floats env settings (codes "Main Street")) [
      | none ↦ failed (codes "geocoder returned no results for test query")
      | some location ↦ received location.label
    ]
