-- ===== src/Providers/Geocode/Within.antt =====
-- Where the places lie that the geocoder of apps/control-plane/src/providers.rs gives.
use trunk_scope.Common.{
  ◌≡◌, refl, Bool, true, false, not, ◌||◌, Option, none, some, if◌then◌else◌, and_then, Text, trim,
}
use mathlib.Core.Option.{some-injective}
use mathlib.Core.Path.{subst}
use trunk_scope.Common.Float.{F64}
use trunk_scope.Domain.{IncidentLocation}
use trunk_scope.State.Settings.{AppSettings}
use trunk_scope.Start.Defaults.{Environment, effective_geocoder_url}
use trunk_scope.Providers.Http.{Services, effective_geocoder_api_key}
use trunk_scope.Providers.Geocode.{
  Floats, locate, is_finite64, within, f64_90, f64_180, checked, geocode,
}

and_then-holds :
    {A B : Type 0} (P : B → Type 0) (o : Option A) (f : A → Option B) (b : B)
    → ((a : A) → f a ≡ some b → P b)
    → and_then o f ≡ some b
    → P b
and_then-holds P none f b h e = cc
and_then-holds P (some a) f b h e = h a e

abbrev pub IsOnEarth : IncidentLocation → Type 0
IsOnEarth place =
    (is_finite64 place.latitude ≡ true)
    × (is_finite64 place.longitude ≡ true)
    × (within f64_90 place.latitude ≡ true)
    × (within f64_180 place.longitude ≡ true)

accepted :
    (a b c d : Bool) (x place : IncidentLocation)
    → (if not a || not b || not c || not d then none else some x) ≡ some place
    → (x ≡ place) × (a ≡ true) × (b ≡ true) × (c ≡ true) × (d ≡ true)
accepted true true true true x place e = (some-injective x place e, refl, refl, refl, refl)
accepted false b c d x place e = cc
accepted true false c d x place e = cc
accepted true true false d x place e = cc
accepted true true true false x place e = cc

checked-IsOnEarth :
    (found : F64 × F64 × Text) (place : IncidentLocation)
    → checked found ≡ some place
    → IsOnEarth place
checked-IsOnEarth (latitude, longitude, label) place e =
    let (same, a, b, c, d) =
      accepted (is_finite64 latitude) (is_finite64 longitude) (within f64_90 latitude)
        (within f64_180 longitude) _ place e in
    subst IsOnEarth same (a, b, c, d)

-- A place that `geocode` gives has a finite latitude from -90 to 90 degrees and a finite longitude
-- from -180 to 180, whatever the service answers.
pub geocode-within :
    (services : Services) (floats : Floats) (env : Environment) (settings : AppSettings)
    (hint : Text) (place : IncidentLocation)
    → geocode services floats env settings hint ≡ some place
    → (is_finite64 place.latitude ≡ true)
      × (is_finite64 place.longitude ≡ true)
      × (within f64_90 place.latitude ≡ true)
      × (within f64_180 place.longitude ≡ true)
unfolding geocode
geocode-within services floats env settings hint place =
    and_then-holds IsOnEarth (effective_geocoder_url env settings)
      (λ endpoint.
        and_then
          (locate services floats (trim settings.geocoder_provider) endpoint
            (effective_geocoder_api_key env settings) hint)
          checked)
      place
      (λ endpoint.
        and_then-holds IsOnEarth
          (locate services floats (trim settings.geocoder_provider) endpoint
            (effective_geocoder_api_key env settings) hint)
          checked place (λ found. checked-IsOnEarth found place))
